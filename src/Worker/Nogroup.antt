-- ===== src/Worker/Nogroup.antt =====
-- worker/main.py: what the worker does when the stream or its group is missing.
use omnibioai_security_audit.Prelude.{
  ℕ, String, contains, Bool, [], ◌∷◌, Option, some, if◌then◌else◌,
}
use omnibioai_security_audit.Python.{Exn, ok}
use omnibioai_security_audit.Python.Exec.{Exec, pure, gets, attempt, ◌>>=◌, ◌>>◌}
use omnibioai_security_audit.RecordIntegrity.Cells.{text}
use omnibioai_security_audit.Alerts.{SecurityAlert, in_window}
use omnibioai_security_audit.Stream.{ensure_group}
use omnibioai_security_audit.Worker.World.{Env, World, on_stream, draw, raise_alert}

unfoldable pub is_nogroup_error : Exn → Bool
unfolding contains
is_nogroup_error e = contains e.message "NOGROUP"

unfoldable pub missing_alert : String → String → SecurityAlert
missing_alert context timestamp = record {
  condition = "audit_stream_or_group_missing";
  severity = "critical";
  component = "audit-worker";
  message = "Redis stream or consumer group is missing (NOGROUP) -- audit delivery is stalled";
  metadata = ("context", text context) ∷ [];
  timestamp = timestamp;
}

unfoldable pub recovered_alert : String → String → SecurityAlert
recovered_alert context timestamp = record {
  condition = "audit_stream_or_group_missing_recovered";
  severity = "info";
  component = "audit-worker";
  message = "Automatic stream/group recreation attempted after NOGROUP";
  metadata = ("context", text context) ∷ [];
  timestamp = timestamp;
}

module _ {R D : Type 0} (env : Env R D) where
  abbrev pub set_last_attempt : ℕ → Exec (World R D) (Unit {0})
  set_last_attempt now w = (ok tt, record w { last_attempt = some now })

  -- A failed attempt is reported and dropped.
  unfoldable pub recreate : String → Exec (World R D) (Unit {0})
  recreate context =
      attempt (on_stream (ensure_group env.redis env.cfg))
        (λ _. raise_alert env (recovered_alert context)) (λ e. pure tt)

  -- No more than one attempt in a back-off window.
  unfoldable pub recreate_if_due : String → ℕ → Option ℕ → Exec (World R D) (Unit {0})
  recreate_if_due context now last =
      if in_window last now env.cfg.worker_nogroup_retry_backoff
      then pure tt
      else (set_last_attempt now >> recreate context)

  unfoldable pub previous_attempt : Exec (World R D) (Option ℕ)
  previous_attempt = gets (λ w. w.last_attempt)

  unfoldable pub try_recreate : String → Exec (World R D) (Unit {0})
  try_recreate context = do
    n ← draw
    last ← previous_attempt
    recreate_if_due context (env.runtime.monotonic n) last

  unfoldable pub handle_nogroup : Exn → String → Exec (World R D) (Unit {0})
  handle_nogroup e context = do
    raise_alert env (missing_alert context)
    if env.cfg.worker_auto_recreate_stream_on_nogroup then try_recreate context else pure tt
