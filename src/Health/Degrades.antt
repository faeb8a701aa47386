-- ===== src/Health/Degrades.antt =====
-- Failing probes and unset thresholds.
use omnibioai_security_audit.Prelude.{
  ℕ, ◌≡◌, ◌≢◌, ◌⊎◌, ◌↔◌, inl, inr, refl, arith, String, true, [], Option, none, some,
}
use omnibioai_security_audit.Python.{Exn, Result, ok, err, >>=-eq-ok, ok-inj}
use omnibioai_security_audit.Library.{Library}
use omnibioai_security_audit.Retention.Host.{Host}
use omnibioai_security_audit.Health.{
  Probe, RedisPipelineHealth, PersistencePipelineHealth, unavailable, or_unavailable, pending_of,
  pending_details, measure, get_redis_pipeline_health, int_env,
}
use omnibioai_security_audit.Health.Alerts.{
  due_alerts, structural_alerts, redis_alerts, database_alerts, is_over,
}

-- What a measured state owes to the answers of Redis.
pub record IsMeasured (probe : Probe) (batch : ℕ) (health : RedisPipelineHealth) : Type 0 where
  pub stream_length : (n : ℕ) × (probe.xlen ≡ ok n) × (health.stream_length ≡ some n)
  pub pending_count :
      (p : Option ℕ) × (probe.xpending ≡ ok p)
      × (health.pending_count ≡ some (pending_of p))
      × (pending_details probe batch (pending_of p)
          ≡ ok (health.oldest_pending_age, health.retry_in_progress_count))
  pub error : health.error ≡ none

measure-IsMeasured :
    (probe : Probe) (group : String) (batch : ℕ) (r : Result RedisPipelineHealth)
    → measure probe group batch ≡ r
    → ((e : Exn) × (r ≡ err e)) ⊎ IsMeasured probe batch (or_unavailable r)
unfolding measure
measure-IsMeasured probe group batch (err e) h = inl (e, refl)
measure-IsMeasured probe group batch (ok health) h =
    let (n, length_read, rest) = >>=-eq-ok probe.xlen _ h in
    let (p, pending_read, rest') = >>=-eq-ok probe.xpending _ rest in
    let (details, read, same) = >>=-eq-ok (pending_details probe batch (pending_of p)) _ rest' in
    rw (← ok-inj same) (
      inr (record {
        stream_length = (n, length_read, refl);
        pending_count = (p, pending_read, refl, read);
        error = refl;
      }))

-- The health of Redis is either unavailable, with every measured field none and the kind of the
-- exception that a command raised, or its stream length, pending count, oldest age and retries are
-- those that Redis answered.
pub get_redis_pipeline_health-IsMeasured :
    (probe : Probe) (group : String) (batch : ℕ)
    → let health = get_redis_pipeline_health probe group batch in
      ((e : Exn) × (measure probe group batch ≡ err e) × (health ≡ unavailable e.kind))
      ⊎ IsMeasured probe batch health
unfolding get_redis_pipeline_health
get_redis_pipeline_health-IsMeasured probe group batch =
    elim (measure-IsMeasured probe group batch (measure probe group batch) refl) [
      | inl (e, raised) ↦ inl (e, raised, rw raised refl)
      | inr measured ↦ inr measured
    ]

-- Without any threshold, the alerts that are due are none exactly if Redis and the database are
-- available and the number of consumers is not zero.
pub due_alerts-nil_iff :
    (lib : Library) (host : Host) (redis : RedisPipelineHealth)
    (persistence : PersistencePipelineHealth)
    → int_env host.int host.environ "AUDIT_ALERT_PEL_PENDING_THRESHOLD" ≡ none
    → int_env host.int host.environ "AUDIT_ALERT_PEL_AGE_THRESHOLD_SECONDS" ≡ none
    → int_env host.int host.environ "AUDIT_ALERT_WORKER_STALL_THRESHOLD_MS" ≡ none
    → int_env host.int host.environ "AUDIT_ALERT_QUARANTINE_COUNT_THRESHOLD" ≡ none
    → (due_alerts lib host redis persistence ≡ []) ↔ (
        (redis.available ≡ true)
        × (redis.active_consumer_count ≢ some 0)
        × (persistence.available ≡ true))
unfolding due_alerts structural_alerts redis_alerts database_alerts is_over
due_alerts-nil_iff lib host redis persistence a b c d =
    rw (a, b, c, d, due_alerts) (λ h. ground arith, λ h. ground arith)
