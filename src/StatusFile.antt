-- ===== src/StatusFile.antt =====
-- The files that the operators' scripts leave for the health service: lines KEY=VALUE. They are
-- written by `_write_status_file` of both scripts and read by `_read_env_file`.
use Prim.Native.Char.{code}
use Prim.Native.String.{[] as nil, ◌∷◌ as cons}
use omnibioai_security_audit.Prelude.{
  ℕ, ◌≡◌, refl, ap, ◌∙◌, arith, String, ◌<>◌, partition, ◌==ℕ◌, leb, Bool, true, false, ◌&&◌, ◌||◌,
  not, List, [], ◌∷◌, Option, none, some, Dict, lookup, insert, truthy, if◌then◌else◌,
}

-- `os.environ.get(name)`, if it is set to a text that is not empty
unfoldable pub setting : String → Dict String → Option String
setting name environ = elim (lookup name environ) [
  | none ↦ none
  | some value ↦ if truthy value then some value else none
]

-- `Path(status_dir) / name`
unfoldable pub status_path : String → String → String
status_path dir name = dir <> ("/" <> name)

-- `f"{key}={value}"`
unfoldable pub env_line : String → String → String
env_line key value = key <> ("=" <> value)

-- `"\n".join(lines) + "\n"`, for lines that are not none
unfoldable pub joined : List String → String
joined [] = ""
joined (line ∷ lines) = line <> ("\n" <> joined lines)

-- The characters at which `str.splitlines` ends a line.
unfoldable pub is_line_break : ℕ → Bool
is_line_break c =
    (leb 10 c && leb c 13) || (leb 28 c && leb c 30) || c ==ℕ 133 || c ==ℕ 8232 || c ==ℕ 8233

unfoldable pub on_first_line : String → List String → List String
on_first_line c [] = c ∷ []
on_first_line c (line ∷ lines) = (c <> line) ∷ lines

-- `s.splitlines()`; a line feed straight after a carriage return ends no further line.
unfoldable pub lines_after : Bool → String → List String
unfolding is_line_break on_first_line
lines_after after_cr nil = []
lines_after after_cr (cons c s) =
    let skipped = lines_after false s in
    let ended = lines_after (code c ==ℕ 13) s in
    if after_cr && code c ==ℕ 10
    then skipped
    else if is_line_break (code c)
    then "" ∷ ended
    else on_first_line (cons c "") skipped

-- The loop of `_read_env_file`.
unfoldable pub read_lines : List String → Dict String → Dict String
read_lines [] values = values
read_lines (line ∷ lines) values =
    let parts = partition b'=' line in
    if parts.1 then read_lines lines (insert parts.0 parts.2 values) else read_lines lines values

-- `none` is a file that is not there.
unfoldable pub read_env_file : Option String → Dict String
unfolding lines_after read_lines
read_env_file none = []
read_env_file (some content) = read_lines (lines_after false content) []

-- A text that stands on one line.
unfoldable pub is_one_line : String → Bool
is_one_line nil = true
is_one_line (cons c s) = not (is_line_break (code c)) && is_one_line s

lines_after-line :
    (line rest : String)
    → is_one_line line ≡ true
    → lines_after false (line <> ("\n" <> rest)) ≡ line ∷ lines_after false rest
unfolding lines_after is_one_line ◌<>◌
lines_after-line nil rest h = refl
lines_after-line (cons c s) rest h =
    let later = lines_after-line s rest (ground arith) in
    let keeps : is_line_break (code c) ≡ false = ground arith in rw (keeps, later) refl

abbrev pub OneLine : List String → Type 0
OneLine [] = Unit
OneLine (line ∷ lines) = (is_one_line line ≡ true) × OneLine lines

-- Lines that were joined are read back.
pub lines_after-joined :
    (lines : List String) → OneLine lines → lines_after false (joined lines) ≡ lines
unfolding joined lines_after
lines_after-joined [] one = refl
lines_after-joined (line ∷ lines) one =
    lines_after-line line (joined lines) one.0 ∙ ap (λ r. line ∷ r) (lines_after-joined lines one.1)

pub is_one_line-append :
    (s t : String) → is_one_line s ≡ true → is_one_line t ≡ true → is_one_line (s <> t) ≡ true
unfolding is_one_line ◌<>◌
is_one_line-append nil t hs ht = ht
is_one_line-append (cons c s) t hs ht = ground (arith, is_one_line-append s t)
