-- ===== src/Health/Alerts.antt =====
-- `_evaluate_health_alerts`: the alerts that a measured state of the pipeline calls for.
use omnibioai_security_audit.Prelude.{
  ℕ, ◌+◌, ◌*◌, String, ◌<>◌, ltb, ◌==ℕ◌, Bool, true, false, List, [], ◌∷◌, ◌++◌, Option, none, some,
  Dict, if◌then◌else◌,
}
use omnibioai_security_audit.Python.Exec.{Exec, pure, ◌>>◌}
use omnibioai_security_audit.Python.Int.{ℤ, pos, negsuc}
use omnibioai_security_audit.Python.Json.{num}
use omnibioai_security_audit.Library.{Library}
use omnibioai_security_audit.Alerts.{SecurityAlert}
use omnibioai_security_audit.RecordIntegrity.Cells.{Cell, null, int, json, opt_text}
use omnibioai_security_audit.Retention.Host.{Host, World, raise_alert}
use omnibioai_security_audit.Health.{
  RedisPipelineHealth, PersistencePipelineHealth, pending_of, int_env,
}

-- An alert before its clock is read.
abbrev pub Draft : Type 0
Draft = String → SecurityAlert

abbrev opt_int : Option ℕ → Cell
opt_int none = null
opt_int (some n) = int n

-- `n > threshold`
unfoldable pub exceeds : ℕ → ℤ → Bool
exceeds n (pos limit) = ltb limit n
exceeds n (negsuc limit) = true

-- A measured value that is not None, above a threshold that is set; the value is counted in units
-- of the threshold's.
unfoldable pub is_over : ℕ → Option ℤ → Option ℕ → Bool
is_over units none n = false
is_over units (some limit) none = false
is_over units (some (pos limit)) (some n) = exceeds n (pos (limit * units))
is_over units (some (negsuc limit)) (some n) = true

abbrev when : Bool → Draft → List Draft
when test draft = if test then draft ∷ [] else []

module _ (lib : Library) where
  abbrev threshold_cell : Option ℤ → Cell
  threshold_cell none = null
  threshold_cell (some (pos n)) = int n
  threshold_cell (some (negsuc n)) = json (num ("-" <> lib.str_int (n + 1)))

  abbrev draft_alert : String → String → String → String → Dict Cell → Draft
  draft_alert condition severity component message metadata timestamp = record {
    condition = condition;
    severity = severity;
    component = component;
    message = message;
    metadata = metadata;
    timestamp = timestamp;
  }

  unfoldable pub redis_unavailable : RedisPipelineHealth → Draft
  redis_unavailable redis =
      draft_alert "redis_stream_unavailable" "critical" "audit-delivery"
        "Redis Streams pipeline is unavailable" (("error", opt_text redis.error) ∷ [])

  unfoldable pub never_registered : RedisPipelineHealth → Draft
  never_registered redis =
      draft_alert "audit_worker_never_registered" "critical" "audit-worker"
        "No consumer has ever registered in the audit worker consumer group"
        (("stream_length", opt_int redis.stream_length) ∷ [])

  abbrev is_zero_count : Option ℕ → Bool
  is_zero_count none = false
  is_zero_count (some n) = n ==ℕ 0

  -- The conditions that are always evaluated.
  unfoldable pub structural_alerts : RedisPipelineHealth → List Draft
  unfolding redis_unavailable never_registered
  structural_alerts redis =
      if redis.available
      then when (is_zero_count redis.active_consumer_count) (never_registered redis)
      else redis_unavailable redis ∷ []

  unfoldable pub backlog : RedisPipelineHealth → Option ℤ → Draft
  backlog redis threshold =
      draft_alert "pel_backlog_threshold_exceeded" "warning" "audit-delivery"
        "Pending-entries-list backlog exceeds configured threshold"
        (("pending_count", opt_int redis.pending_count)
          ∷ ("threshold", threshold_cell threshold)
          ∷ [])

  unfoldable pub old_entry : RedisPipelineHealth → Option ℤ → Draft
  old_entry redis threshold =
      draft_alert "pel_entry_age_threshold_exceeded" "warning" "audit-delivery"
        "Oldest pending stream entry exceeds configured age threshold"
        (("oldest_pending_age_seconds", opt_int redis.oldest_pending_age)
          ∷ ("threshold", threshold_cell threshold)
          ∷ [])

  unfoldable pub stalled : RedisPipelineHealth → Option ℤ → Draft
  stalled redis threshold =
      draft_alert "audit_worker_stalled" "warning" "audit-worker"
        "Least-idle consumer exceeds configured stall threshold -- worker may have stopped processing"
        (("least_idle_consumer_ms", opt_int redis.least_idle_consumer_ms)
          ∷ ("threshold", threshold_cell threshold)
          ∷ [])

  unfoldable pub redis_alerts : RedisPipelineHealth → Option ℤ → Option ℤ → Option ℤ → List Draft
  unfolding backlog old_entry stalled is_over
  redis_alerts redis pending_limit age_limit stall_limit =
      if redis.available
      then when (is_over 1 pending_limit (some (pending_of redis.pending_count)))
          (backlog redis pending_limit)
        ++ when (is_over 1000 age_limit redis.oldest_pending_age) (old_entry redis age_limit)
        ++ when (is_over 1 stall_limit redis.least_idle_consumer_ms) (stalled redis stall_limit)
      else []

  unfoldable pub database_unavailable : PersistencePipelineHealth → Draft
  database_unavailable persistence =
      draft_alert "audit_database_unavailable" "critical" "audit-persistence"
        "Audit database is unavailable" (("error", opt_text persistence.error) ∷ [])

  unfoldable pub many_quarantined : PersistencePipelineHealth → Option ℤ → Draft
  many_quarantined persistence threshold =
      draft_alert "quarantine_count_threshold_exceeded" "warning" "audit-worker"
        "Quarantined-event count exceeds configured threshold"
        (("quarantine_count", opt_int persistence.quarantine_count)
          ∷ ("threshold", threshold_cell threshold)
          ∷ [])

  unfoldable pub database_alerts : PersistencePipelineHealth → Option ℤ → List Draft
  unfolding database_unavailable many_quarantined is_over
  database_alerts persistence limit =
      if persistence.available
      then when (is_over 1 limit (some (pending_of persistence.quarantine_count)))
          (many_quarantined persistence limit)
      else database_unavailable persistence ∷ []

  module _ (host : Host) where
    unfoldable pub due_alerts : RedisPipelineHealth → PersistencePipelineHealth → List Draft
    unfolding structural_alerts redis_alerts database_alerts
    due_alerts redis persistence =
        structural_alerts redis
        ++ redis_alerts redis (int_env host.int host.environ "AUDIT_ALERT_PEL_PENDING_THRESHOLD")
            (int_env host.int host.environ "AUDIT_ALERT_PEL_AGE_THRESHOLD_SECONDS")
            (int_env host.int host.environ "AUDIT_ALERT_WORKER_STALL_THRESHOLD_MS")
        ++ database_alerts persistence
            (int_env host.int host.environ "AUDIT_ALERT_QUARANTINE_COUNT_THRESHOLD")

    unfoldable pub raise_all : List Draft → Exec World (Unit {0})
    raise_all [] = pure tt
    raise_all (draft ∷ drafts) = raise_alert lib host draft >> raise_all drafts

    -- No alert raises, so the blanket `except` has nothing to catch.
    unfoldable pub evaluate_health_alerts :
        RedisPipelineHealth → PersistencePipelineHealth → Exec World (Unit {0})
    unfolding raise_all due_alerts
    evaluate_health_alerts redis persistence = raise_all (due_alerts redis persistence)
