-- ===== src/AclSafety/Command.antt =====
-- scripts/redis_acl_safety.py: the errors, and what a command is taken for.
use omnibioai_security_audit.Prelude.{
  ℕ, String, ◌==◌, ◌<>◌, truthy, Bool, false, ◌&&◌, ◌||◌, List, [], ◌∷◌, map, if◌then◌else◌,
}
use omnibioai_security_audit.Python.{Exn, Result, ok, err}

-- `str(a).strip().upper()` and `repr` go by the Unicode tables, bytes are decoded with replacement.
pub record Strings : Type 0 where
  pub decode : List ℕ → String
  pub strip_upper : String → String
  pub repr : String → String

pub data Argument : Type 0 where
  str : String → Argument
  bytes : List ℕ → Argument

-- `(COMMAND,)` or `(COMMAND, SUBCOMMAND)`.
pub data Command : Type 0 where
  plain : String → Command
  with_sub : String → String → Command

unfoldable pub same : Command → Command → Bool
same (plain a) (plain b) = a == b
same (plain a) (with_sub b c) = false
same (with_sub a b) (plain c) = false
same (with_sub a b) (with_sub c d) = a == c && b == d

-- `cmd in s` of a frozenset.
unfoldable pub is_in : Command → List Command → Bool
is_in c [] = false
is_in c (d ∷ ds) = same c d || is_in c ds

unfoldable pub is_one_of : String → List String → Bool
is_one_of s [] = false
is_one_of s (t ∷ ts) = s == t || is_one_of s ts

-- The classes that the module defines, RedisSafetyError first.
abbrev pub safety_errors : List String
safety_errors =
    "RedisSafetyError" ∷ "EnvironmentClassificationError" ∷ "AuthenticationFailedError"
    ∷ "IdentityMismatchError" ∷ "ProhibitedCommandError" ∷ "DangerousCommandError" ∷ []

unfoldable pub is_safety_error : Exn → Bool
is_safety_error e = is_one_of e.kind safety_errors

abbrev pub dangerous_commands : List Command
dangerous_commands =
    plain "FLUSHALL"
    ∷ plain "FLUSHDB"
    ∷ plain "SHUTDOWN"
    ∷ plain "DEBUG"
    ∷ with_sub "CONFIG" "SET"
    ∷ with_sub "ACL" "SETUSER"
    ∷ with_sub "ACL" "DELUSER"
    ∷ with_sub "ACL" "LOAD"
    ∷ with_sub "ACL" "SAVE"
    ∷ with_sub "ACL" "LOG"
    ∷ with_sub "MODULE" "LOAD"
    ∷ with_sub "MODULE" "UNLOAD"
    ∷ plain "MIGRATE"
    ∷ plain "RESTORE"
    ∷ plain "RESTORE-ASKING"
    ∷ plain "SWAPDB"
    ∷ plain "REPLICAOF"
    ∷ plain "SLAVEOF"
    ∷ []

abbrev pub production_allowed_commands : List Command
production_allowed_commands = plain "PING" ∷ with_sub "ACL" "WHOAMI" ∷ plain "INFO" ∷ []

abbrev pub known_subcommand_prefixes : List String
known_subcommand_prefixes =
    "ACL" ∷ "CONFIG" ∷ "CLIENT" ∷ "XGROUP" ∷ "XINFO" ∷ "SCRIPT" ∷ "FUNCTION" ∷ "MODULE" ∷ "COMMAND"
    ∷ "CLUSTER" ∷ "LATENCY" ∷ "SLOWLOG" ∷ "MEMORY" ∷ "OBJECT" ∷ "PUBSUB" ∷ []

abbrev pub prohibited : String → Exn
prohibited message = record { kind = "ProhibitedCommandError"; message = message }

-- `" ".join(cmd)`
unfoldable pub join : Command → String
unfolding ◌<>◌
join (plain c) = c
join (with_sub c s) = c <> " " <> s

abbrev pub empty_command : Exn
empty_command = prohibited "refusing to authorize an empty command"

module _ (strings : Strings) where
  unfoldable pub canonical : Argument → String
  canonical (str s) = strings.strip_upper s
  canonical (bytes b) = strings.strip_upper (strings.decode b)

  unfoldable pub command_of : List String → Result Command
  command_of [] = err empty_command
  command_of (c ∷ []) = if truthy c then ok (plain c) else err empty_command
  command_of (c ∷ s ∷ rest) =
      if truthy c
      then (if is_one_of c known_subcommand_prefixes then ok (with_sub c s) else ok (plain c))
      else err empty_command

  unfoldable pub normalize_command : List Argument → Result Command
  normalize_command args = command_of (map canonical args)
