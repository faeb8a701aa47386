-- ===== src/Retention/Host.antt =====
-- Where an operator's script runs: its environment, the database that it shares with other users,
-- its clocks, and the files and alerts that it leaves.
use omnibioai_security_audit.Prelude.{ℕ, ◌+◌, String, List, Option, none, some, Dict, insert}
use omnibioai_security_audit.Python.{Exn, Result, ok, err}
use omnibioai_security_audit.Python.Exec.{Exec, lift, ◌>>=◌}
use omnibioai_security_audit.Python.Int.{ℤ}
use omnibioai_security_audit.Python.Time.{DateTime, east}
use omnibioai_security_audit.Library.{Library}
use omnibioai_security_audit.Alerts.{SecurityAlert, AlertState, emit_security_alert, default_window}
use omnibioai_security_audit.Retention.Store.{Store, Collation}
use omnibioai_security_audit.Retention.Statement.{Statement, run}

-- How a call of the database driver ends: as it should, or with an exception that is raised before
-- or after the server acted.
pub data Fault : Type 0 where
  fine : Fault
  before after : Exn → Fault

-- A connection's user, and for each call that the script makes: its fault, and the statements that
-- other users commit just before it. Between a DELETE and its COMMIT the transaction's locks keep
-- the others out.
pub record Driver : Type 0 where
  pub user : String
  pub others : ℕ → List (String × Statement)
  pub fault : ℕ → Fault

-- Where a script runs.
pub record Host : Type 0 where
  pub environ : Dict String
  pub collation : Collation
  -- `int(s)`, with none for a ValueError
  pub int : String → Option ℤ
  pub create_engine : String → Result Driver
  pub utcnow : ℕ → ℕ
  pub monotonic : ℕ → ℕ
  -- The exception that a write to a file raises.
  pub write_error : String → Option Exn

-- `pending` is the uncommitted work of the connection; `files` is by path.
pub record World : Type 0 where
  pub store : Store
  pub pending : Option Store
  pub calls : ℕ
  pub files : Dict String
  pub alerts : AlertState
  pub draws : ℕ

unfoldable pub invoke : {A : Type 0} → Fault → Exec World A → Exec World A
invoke fine m = m
invoke (before e) m = lift (err e)
invoke (after e) m = m >>= λ done. lift (err e)

module _ (collation : Collation) (driver : Driver) where
  -- A call of the driver, after what others committed.
  unfoldable pub call : {A : Type 0} → Exec World A → Exec World A
  unfolding invoke
  call m w =
      invoke (driver.fault w.calls) m
        (record w { store = run collation (driver.others w.calls) w.store; calls = w.calls + 1 })

-- `datetime.now(timezone.utc)` as a reading of the clock
abbrev pub utc : ℕ → DateTime
utc wall = record { wall = wall; tzinfo = some (east 0) }

module _ (lib : Library) (host : Host) where
  unfoldable pub now : Exec World DateTime
  now w = (ok (utc (host.utcnow w.draws)), record w { draws = w.draws + 1 })

  -- The text is written to a file beside the path, which then replaces it.
  unfoldable pub write_file : String → String → Exec World (Unit {0})
  write_file path content w = elim (host.write_error path) [
    | some e ↦ (err e, w)
    | none ↦ (ok tt, record w { files = insert path content w.files })
  ]

  unfoldable pub raise_alert : (String → SecurityAlert) → Exec World (Unit {0})
  raise_alert alert w =
      let r =
        emit_security_alert default_window (host.monotonic w.draws)
          (alert (lib.isoformat (utc (host.utcnow w.draws)))) w.alerts in
      (ok tt, record w { alerts = r.1; draws = w.draws + 1 })
