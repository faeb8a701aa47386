-- ===== src/Health/Pipeline.antt =====
-- `get_pipeline_health`: the three measurements and the alerts in one record.
use omnibioai_security_audit.Prelude.{ℕ, ◌≡◌, refl, ap, String, List, [], ◌∷◌}
use omnibioai_security_audit.Python.{ok, err}
use omnibioai_security_audit.Python.Exec.{Exec, pure, gets, ◌>>=◌, ◌>>◌}
use omnibioai_security_audit.Python.Exec.Keeps.{attempt-of_ok}
use omnibioai_security_audit.Python.Time.{DateTime}
use omnibioai_security_audit.Library.{Library}
use omnibioai_security_audit.Retention.Host.{Host, World, now, raise_alert}
use omnibioai_security_audit.Health.{
  Probe, Tables, RedisPipelineHealth, PersistencePipelineHealth, RetentionIntegrityHealth,
  get_redis_pipeline_health, get_persistence_pipeline_health, get_retention_integrity_health,
}
use omnibioai_security_audit.Health.Alerts.{Draft, raise_all, due_alerts, evaluate_health_alerts}

pub record AuditPipelineHealth : Type 0 where
  pub generated_at : DateTime
  pub redis : RedisPipelineHealth
  pub persistence : PersistencePipelineHealth
  pub retention_integrity : RetentionIntegrityHealth

module _ (lib : Library) (host : Host) where
  unfoldable pub report_health :
      RedisPipelineHealth → PersistencePipelineHealth → Exec World AuditPipelineHealth
  report_health redis persistence = do
    generated_at ← now lib host
    files ← gets (λ w. w.files)
    pure (record {
      generated_at = generated_at;
      redis = redis;
      persistence = persistence;
      retention_integrity = get_retention_integrity_health host.int host.environ files;
    })

  unfoldable pub get_pipeline_health : Probe → String → ℕ → Tables → Exec World AuditPipelineHealth
  unfolding report_health
  get_pipeline_health probe group batch db =
      let redis = get_redis_pipeline_health probe group batch in
      let persistence = get_persistence_pipeline_health db in
      evaluate_health_alerts lib host redis persistence >> report_health redis persistence

  -- Raising alerts ends well and touches neither tables nor files.
  raise_all-ok :
      (drafts : List Draft) (w : World)
      → let (ended, w') = raise_all lib host drafts w in
        (ended ≡ ok tt) × (w'.store ≡ w.store) × (w'.files ≡ w.files)
  unfolding raise_all raise_alert
  raise_all-ok [] w = (refl, refl, refl)
  raise_all-ok (draft ∷ drafts) w = raise_all-ok drafts (raise_alert lib host draft w).1

  -- Whatever Redis and the database answer, and whatever is raised: the pipeline's health is
  -- returned with both measurements and what the status files say, and no table and no file has
  -- changed.
  get_pipeline_health-ok :
      (probe : Probe) (group : String) (batch : ℕ) (db : Tables) (w : World)
      → let (ended, w') = get_pipeline_health probe group batch db w in
        (health : AuditPipelineHealth) × (ended ≡ ok health)
        × (health.redis ≡ get_redis_pipeline_health probe group batch)
        × (health.persistence ≡ get_persistence_pipeline_health db)
        × (health.retention_integrity
            ≡ get_retention_integrity_health host.int host.environ w.files)
        × (w'.store ≡ w.store)
        × (w'.files ≡ w.files)
  unfolding get_pipeline_health evaluate_health_alerts report_health now
  get_pipeline_health-ok probe group batch db w =
      let redis = get_redis_pipeline_health probe group batch in
      let persistence = get_persistence_pipeline_health db in
      let (ended, store, files) = raise_all-ok (due_alerts lib host redis persistence) w in
      let went : get_pipeline_health probe group batch db w
          ≡ report_health redis persistence
              (raise_all lib host (due_alerts lib host redis persistence) w).1 =
        attempt-of_ok (raise_all lib host (due_alerts lib host redis persistence))
          (λ _. report_health redis persistence) (λ e s. (err e, s)) w ended in
      rw (went) (
        _,
        refl,
        refl,
        refl,
        ap (get_retention_integrity_health host.int host.environ) files,
        store,
        files,
      )
