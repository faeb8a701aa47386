-- ===== src/RecordIntegrity/Message.antt =====
-- The canonical message of a record: one line `column=value` for each covered column.
use omnibioai_security_audit.Prelude.{
  ℕ, ◌-◌, ◌%◌, String, ◌==◌, ◌<>◌, Bool, leb, List, [], ◌∷◌, ◌++◌, Option, none, some,
  if◌then◌else◌,
}
use omnibioai_security_audit.Python.{Result, ok, err, ◌>>=◌}
use omnibioai_security_audit.Python.Time.{DateTime, east, west, naive, forward, backward}
use omnibioai_security_audit.Python.Json.{obj, str, num, end, null as json_null}
use omnibioai_security_audit.Library.{Library}
use omnibioai_security_audit.RecordIntegrity.Cells.{Cell, Record, get, null, text, int, time, json}

abbrev pub audit_event_fields : List String
audit_event_fields =
    "event_id" ∷ "timestamp" ∷ "service" ∷ "event_type" ∷ "user_id" ∷ "organization_id"
    ∷ "tenant_scope" ∷ "action" ∷ "resource" ∷ "decision" ∷ "reason" ∷ "trace_id" ∷ "context"
    ∷ "integrity_status" ∷ []

abbrev pub quarantine_record_fields : List String
quarantine_record_fields =
    "stream_message_id" ∷ "raw_data" ∷ "raw_signature" ∷ "service" ∷ "failure_category"
    ∷ "failure_detail" ∷ "delivery_attempts" ∷ []

-- `value.astimezone(timezone.utc).replace(tzinfo=None)` of an aware value; a naive one is UTC.
unfoldable pub to_naive_utc : DateTime → Result DateTime
to_naive_utc d = elim d.tzinfo [
  | none ↦ ok d
  | some o ↦ elim o [
    | east m ↦ (do t ← backward d.wall m; ok (naive t))
    | west m ↦ (do t ← forward d.wall m; ok (naive t))
  ]
]

-- The fraction of a second is rounded off, from half a second upwards.
unfoldable pub round_second : ℕ → Result ℕ
round_second t =
    let whole = t - t % 1000000 in
    if leb 500000 (t % 1000000) then forward whole 1000000 else ok whole

unfoldable pub canonical_time : Bool → DateTime → Result DateTime
unfolding to_naive_utc round_second
canonical_time legacy d = do
  value ← to_naive_utc d
  whole ← round_second value.wall
  ok (record { wall = whole; tzinfo = if legacy then some (east 0) else none })

-- ", ".join and "\n".join
unfoldable pub join : String → List String → String
join sep [] = ""
join sep (p ∷ []) = p
join sep (p ∷ q ∷ ps) = p <> (sep <> join sep (q ∷ ps))

-- The last line, if the row names its key.
abbrev pub key_part : Option String → List String
key_part none = []
key_part (some key_id) = ("integrity_key_id=" <> key_id) ∷ []

module _ (lib : Library) where
  -- A text is decoded first if it is JSON; `default=str` writes a datetime as its text.
  unfoldable pub canonical_json : Cell → Result String
  canonical_json null = lib.dumps json_null
  canonical_json (text s) = elim (lib.loads s) [ ok v ↦ lib.dumps v | err e ↦ lib.dumps (str s) ]
  canonical_json (int n) = lib.dumps (num (lib.str_int n))
  canonical_json (time d) = lib.dumps (str (lib.str_time d))
  canonical_json (json v) = lib.dumps v

  -- f"{value!s}"
  unfoldable pub str_cell : Cell → String
  str_cell null = "None"
  str_cell (text s) = s
  str_cell (int n) = lib.str_int n
  str_cell (time d) = lib.str_time d
  str_cell (json v) = lib.str_json v

  unfoldable pub timestamp_text : Bool → Cell → Result String
  unfolding canonical_time str_cell
  timestamp_text legacy (time d) = do value ← canonical_time legacy d; ok (lib.isoformat value)
  timestamp_text legacy v = ok (str_cell v)

  unfoldable pub context_text : Cell → Result String
  unfolding canonical_json
  context_text null = canonical_json (json (obj end))
  context_text v = canonical_json v

  -- What stands behind the equals sign for one column.
  unfoldable pub field_text : Bool → String → Cell → Result String
  unfolding context_text timestamp_text
  field_text legacy field v =
      if field == "context"
      then context_text v
      else if field == "timestamp"
      then timestamp_text legacy v
      else ok (str_cell v)

  unfoldable pub canonical_parts : List String → Bool → Record → Result (List String)
  canonical_parts [] legacy r = ok []
  canonical_parts (field ∷ fields) legacy r = do
    value ← field_text legacy field (get field r)
    parts ← canonical_parts fields legacy r
    ok ((field <> ("=" <> value)) ∷ parts)

  unfoldable pub canonical_message : List String → Bool → Option String → Record → Result String
  canonical_message fields legacy key_id r = do
    parts ← canonical_parts fields legacy r
    ok (join "\n" (parts ++ key_part key_id))
