-- ===== src/Worker/World.antt =====
-- What the worker runs on, and the state that it changes.
use omnibioai_security_audit.Prelude.{ℕ, ◌+◌, String, Option, some}
use omnibioai_security_audit.Python.{ok}
use omnibioai_security_audit.Python.Time.{DateTime, east}
use omnibioai_security_audit.Python.Exec.{Exec}
use omnibioai_security_audit.Library.{Library}
use omnibioai_security_audit.Config.{AuditConfig}
use omnibioai_security_audit.Alerts.{SecurityAlert, AlertState, emit_security_alert, default_window}
use omnibioai_security_audit.Storage.{Database}
use omnibioai_security_audit.Stream.{Redis}

-- Clocks and random identifiers: the n-th reading of each.
pub record Runtime : Type 0 where
  pub uuid4 : ℕ → String
  pub utcnow : ℕ → DateTime
  pub monotonic : ℕ → ℕ

pub record Env (R D : Type 0) : Type 0 where
  pub lib : Library
  pub cfg : AuditConfig
  pub runtime : Runtime
  pub redis : Redis R
  pub db : Database D

-- `last_attempt` is `_last_nogroup_recreate_attempt`; `draws` counts the readings of the runtime.
pub record World (R D : Type 0) : Type 0 where
  pub stream : R
  pub tables : D
  pub alerts : AlertState
  pub last_attempt : Option ℕ
  pub draws : ℕ
  pub slept : ℕ

module _ {R D : Type 0} where
  -- A command of the stream reader, run in the worker.
  abbrev pub on_stream {κ} : {A : Type κ} → Exec R A → Exec (World R D) A
  on_stream m w = let (r, s) = m w.stream in (r, record w { stream = s })

  -- A write of a sink, on a session of its own that is closed in either case.
  abbrev pub on_tables {κ} : {A : Type κ} → Exec D A → Exec (World R D) A
  on_tables m w = let (r, d) = m w.tables in (r, record w { tables = d })

  -- One reading of the clocks and of the generator.
  abbrev pub draw : Exec (World R D) ℕ
  draw w = (ok w.draws, record w { draws = w.draws + 1 })

  abbrev pub sleep : ℕ → Exec (World R D) (Unit {0})
  sleep t w = (ok tt, record w { slept = w.slept + t })

  module _ (env : Env R D) where
    -- `emit_security_alert(...)`: the alert is made for a timestamp, sent or held back, and never
    -- raises.
    unfoldable pub raise_alert : (String → SecurityAlert) → Exec (World R D) (Unit {0})
    raise_alert a w =
        let now : DateTime = record {
          wall = (env.runtime.utcnow w.draws).wall;
          tzinfo = some (east 0);
        } in
        let r =
          emit_security_alert default_window (env.runtime.monotonic w.draws)
            (a (env.lib.isoformat now)) w.alerts in
        (ok tt, record w { alerts = r.1; draws = w.draws + 1 })
