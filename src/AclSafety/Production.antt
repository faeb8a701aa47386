-- ===== src/AclSafety/Production.antt =====
-- A whole production session, from its authentication to its last command.
use omnibioai_security_audit.Prelude.{ℕ, String, List, [], ◌∷◌}
use omnibioai_security_audit.Python.Exec.{Exec, pure, attempt, ◌>>=◌}
use omnibioai_security_audit.AclSafety.Command.{Strings, Argument, str}
use omnibioai_security_audit.AclSafety.Connection.{Client, Op, opened, sent, Wire}
use omnibioai_security_audit.AclSafety.Session.{Session, authenticate_production, run_command}

-- The log right after AUTH was sent on a connection that was opened.
abbrev pub auth_sent : String → String → List Op → List Op
auth_sent username password log =
    sent (str "AUTH" ∷ str username ∷ str password ∷ []) ∷ opened ∷ log

module _ {S : Type 0} (strings : Strings) (client : Client S) where
  -- A caller that runs a list of commands and goes on after each that raises.
  unfoldable pub run_all : Session → List (List Argument) → Exec (Wire S) (Unit {0})
  run_all session [] = pure tt
  run_all session (args ∷ rest) =
      attempt (run_command strings client session args) (λ r. run_all session rest)
        (λ e. run_all session rest)

  unfoldable pub production_run :
      (ℕ → String)
      → String
      → ℕ
      → String
      → String
      → String
      → List (List Argument)
      → Exec (Wire S) (Unit {0})
  production_run shown host port username password expected commands = do
    session ← authenticate_production strings client shown host port username password expected
    run_all session commands
