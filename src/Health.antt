-- ===== src/Health.antt =====
-- services/audit_health_service.py: what Redis, the database and the status files say of the
-- pipeline. Ages are in milliseconds.
pub mod Alerts
pub mod Reported
pub mod Retained
pub mod Degrades
pub mod Pipeline
use omnibioai_security_audit.Prelude.{
  ℕ, ◌+◌, ◌*◌, String, ◌==◌, ◌<>◌, ltb, ◌==ℕ◌, Bool, true, false, not, ◌&&◌, ◌||◌, List, [], ◌∷◌,
  ◌++◌, length, Option, none, some, Dict, lookup, if◌then◌else◌,
}
use omnibioai_security_audit.Python.{Exn, Result, ok, err, ◌>>=◌, ◌>>◌}
use omnibioai_security_audit.Python.Int.{ℤ, pos, negsuc}
use omnibioai_security_audit.Python.Time.{DateTime}
use omnibioai_security_audit.StatusFile.{setting, status_path, read_env_file}

pub record RedisPipelineHealth : Type 0 where
  pub available : Bool
  pub pending_count : Option ℕ
  pub oldest_pending_age : Option ℕ
  pub retry_in_progress_count : Option ℕ
  pub consumer_lag : Option ℕ
  pub consumer_lag_source : Option String
  pub stream_length : Option ℕ
  pub active_consumer_count : Option ℕ
  pub least_idle_consumer_ms : Option ℕ
  pub error : Option String

-- RedisPipelineHealth(available=False, error=...)
abbrev pub unavailable : String → RedisPipelineHealth
unavailable kind = record {
  available = false;
  pending_count = none;
  oldest_pending_age = none;
  retry_in_progress_count = none;
  consumer_lag = none;
  consumer_lag_source = none;
  stream_length = none;
  active_consumer_count = none;
  least_idle_consumer_ms = none;
  error = some kind;
}

-- An entry of XPENDING, and a group of XINFO GROUPS, whose lag may be missing, or be nil.
pub record PendingEntry : Type 0 where
  pub time_since_delivered : ℕ
  pub times_delivered : ℕ

pub record GroupInfo : Type 0 where
  pub name : String
  pub lag : Option (Option ℕ)

-- The answers of Redis to the commands of the probe.
pub record Probe : Type 0 where
  pub xlen : Result ℕ
  -- `summary["pending"]`, if there is a summary
  pub xpending : Result (Option ℕ)
  pub xpending_range : ℕ → Result (List PendingEntry)
  pub xinfo_groups : Result (List GroupInfo)
  -- the idle time of each consumer
  pub xinfo_consumers : Result (List ℕ)

abbrev pub pending_of : Option ℕ → ℕ
pending_of none = 0
pending_of (some n) = n

abbrev pub age_of : List PendingEntry → Option ℕ
age_of [] = none
age_of (entry ∷ rest) = some entry.time_since_delivered

unfoldable pub retried : List PendingEntry → ℕ
retried [] = 0
retried (entry ∷ rest) = let n = retried rest in if ltb 1 entry.times_delivered then n + 1 else n

-- The age of the oldest entry and the number of retried ones, if anything is pending.
unfoldable pub pending_details : Probe → ℕ → ℕ → Result (Option ℕ × Option ℕ)
unfolding retried
pending_details probe batch pending = if pending ==ℕ 0 then ok (none, none) else (do
  oldest ← probe.xpending_range 1
  sample ← probe.xpending_range batch
  ok (age_of oldest, some (retried sample)))

-- The lag of the first group with the name that has the field.
unfoldable pub lag_in : String → List GroupInfo → Option ℕ
lag_in group [] = none
lag_in group (g ∷ gs) =
    let rest = lag_in group gs in
    if g.name == group then elim g.lag [ some lag ↦ lag | none ↦ rest ] else rest

unfoldable pub lag_of : String → Result (List GroupInfo) → Option ℕ
unfolding lag_in
lag_of group (err e) = none
lag_of group (ok groups) = lag_in group groups

abbrev pub lag_source : Option ℕ → String
lag_source none = "unsupported_redis_version"
lag_source (some n) = "xinfo_groups"

unfoldable pub least : List ℕ → Option ℕ
least [] = none
least (n ∷ ns) = elim (least ns) [ none ↦ some n | some m ↦ some (if ltb m n then m else n) ]

-- The number of consumers, and the least idle time.
unfoldable pub consumers_of : Result (List ℕ) → Option ℕ × Option ℕ
unfolding least
consumers_of (err e) = (none, none)
consumers_of (ok idle) = (some (length idle), least idle)

unfoldable pub measure : Probe → String → ℕ → Result RedisPipelineHealth
unfolding pending_details lag_of consumers_of
measure probe group batch = do
  stream_length ← probe.xlen
  summary ← probe.xpending
  details ← pending_details probe batch (pending_of summary)
  ok (record {
    available = true;
    pending_count = some (pending_of summary);
    oldest_pending_age = details.0;
    retry_in_progress_count = details.1;
    consumer_lag = lag_of group probe.xinfo_groups;
    consumer_lag_source = some (lag_source (lag_of group probe.xinfo_groups));
    stream_length = some stream_length;
    active_consumer_count = (consumers_of probe.xinfo_consumers).0;
    least_idle_consumer_ms = (consumers_of probe.xinfo_consumers).1;
    error = none;
  })

abbrev pub or_unavailable : Result RedisPipelineHealth → RedisPipelineHealth
or_unavailable (ok health) = health
or_unavailable (err e) = unavailable e.kind

unfoldable pub get_redis_pipeline_health : Probe → String → ℕ → RedisPipelineHealth
unfolding measure
get_redis_pipeline_health probe group batch = or_unavailable (measure probe group batch)

pub record PersistencePipelineHealth : Type 0 where
  pub available : Bool
  pub last_successful_persistence_at : Option DateTime
  pub quarantine_count : Option ℕ
  pub last_quarantine_at : Option DateTime
  pub error : Option String

-- The answers of the database to the three queries; a maximum of no rows is null.
pub record Tables : Type 0 where
  pub last_success : Result (Option DateTime)
  pub quarantined : Result (Option ℕ)
  pub last_quarantine : Result (Option DateTime)

unfoldable pub measure_tables : Tables → Result PersistencePipelineHealth
measure_tables db = do
  last_success ← db.last_success
  quarantined ← db.quarantined
  last_quarantine ← db.last_quarantine
  ok (record {
    available = true;
    last_successful_persistence_at = last_success;
    quarantine_count = some (pending_of quarantined);
    last_quarantine_at = last_quarantine;
    error = none;
  })

abbrev or_no_database : Result PersistencePipelineHealth → PersistencePipelineHealth
or_no_database (ok health) = health
or_no_database (err e) = record {
  available = false;
  last_successful_persistence_at = none;
  quarantine_count = none;
  last_quarantine_at = none;
  error = some e.kind;
}

unfoldable pub get_persistence_pipeline_health : Tables → PersistencePipelineHealth
unfolding measure_tables
get_persistence_pipeline_health db = or_no_database (measure_tables db)

pub record RetentionIntegrityHealth : Type 0 where
  pub last_integrity_verification_ts : Option String
  pub last_integrity_verification_result : Option String
  pub last_integrity_events_invalid : Option ℤ
  pub last_retention_run_ts : Option String
  pub last_retention_run_result : Option String
  pub last_retention_deleted_total : Option ℤ
  pub status_source : String

-- `int` is Python's, with none for a ValueError; `files` has the status files by their paths.
module _ (int : String → Option ℤ) (environ : Dict String) where
  abbrev int_or_none : Option String → Option ℤ
  int_or_none none = none
  int_or_none (some v) = int v

  unfoldable pub retention_integrity_of : Dict String → Dict String → RetentionIntegrityHealth
  retention_integrity_of verification retention = record {
    last_integrity_verification_ts = lookup "LAST_VERIFICATION_TS" verification;
    last_integrity_verification_result = lookup "LAST_VERIFICATION_RESULT" verification;
    last_integrity_events_invalid =
        int_or_none (lookup "LAST_VERIFICATION_EVENTS_INVALID" verification);
    last_retention_run_ts = lookup "LAST_RETENTION_RUN_TS" retention;
    last_retention_run_result = lookup "LAST_RETENTION_RUN_RESULT" retention;
    last_retention_deleted_total =
        int_or_none (lookup "LAST_RETENTION_RUN_DELETED_TOTAL" retention);
    status_source = "configured";
  }

  unfoldable pub get_retention_integrity_health : Dict String → RetentionIntegrityHealth
  unfolding retention_integrity_of
  get_retention_integrity_health files = elim (setting "AUDIT_HEALTH_STATUS_DIR" environ) [
    | none ↦ record (retention_integrity_of [] []) { status_source = "not_configured" }
    | some dir ↦
        retention_integrity_of
          (read_env_file (lookup (status_path dir "audit-integrity-verification.env") files))
          (read_env_file (lookup (status_path dir "audit-retention-run.env") files))
  ]

  -- An alert threshold: unset or unparseable is none.
  unfoldable pub int_env : String → Option ℤ
  int_env name = int_or_none (setting name environ)
