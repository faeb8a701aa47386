-- ===== src/Tests/Identity.antt =====
-- Connections to a server that knows one user.
use omnibioai_security_audit.Prelude.{
  ℕ, ◌≡◌, ◌≢◌, ◌↔◌, refl, String, ◌==◌, true, false, List, [], ◌∷◌, some, if◌then◌else◌,
}
use omnibioai_security_audit.Python.{Result, ok, err}
use omnibioai_security_audit.AclSafety.Command.{
  Strings, Argument, str, normalize_command, command_of, canonical, is_one_of, is_in, same,
}
use omnibioai_security_audit.AclSafety.Connection.{
  Client, Reply, text, null, Wire, opened, sent, closed, execute, open_client, opening,
  close_client, is_text,
}
use omnibioai_security_audit.AclSafety.Environment.{
  production, production_validator, negative_test_gate, DisposableAttestation, authorize,
  make_negative_test_gate, production_port, permit_normalized, permit, classify_environment,
  classify_attested, probe, close_quietly, compare_nonce, require_disposable,
}
use omnibioai_security_audit.AclSafety.Session.{
  Session, authenticate, whoami, login, after_auth, accepted, confirm, check_identity,
}
use omnibioai_security_audit.AclSafety.Allowed.{IsAllowed, authorize_production_iff}
use omnibioai_security_audit.AclSafety.Attested.{IsAttested, make_negative_test_gate-IsAttested}
use omnibioai_security_audit.AclSafety.Shut.{auth, authenticate-refused, authenticate-identity}

-- Commands in capitals, of ASCII letters only.
abbrev plain_strings : Strings
plain_strings = record { decode = λ b. ""; strip_upper = λ s. s; repr = λ s. s }

-- The server's state is the user of the connection.
unfoldable reply : List Argument → String → Result Reply × String
reply (str c ∷ str a ∷ str b ∷ rest) user =
    if c == "AUTH"
    then (if b == "open sesame"
        then (ok (text "OK"), a)
        else (err (record { kind = "AuthenticationError"; message = "WRONGPASS" }), user))
    else (ok null, user)
reply (str c ∷ str a ∷ []) user =
    if c == "GET" then (ok (text "n0nce"), user) else (ok (text user), user)
reply args user = (ok null, user)

abbrev client : Client String
client = record {
  connect = λ host port user. (ok tt, "default");
  execute_command = reply;
  close = λ user. (ok tt, user);
  is_redis_error = λ e. true;
  is_authentication_error = λ e. e.kind == "AuthenticationError";
}

abbrev wire : Wire String
wire = record { server = ""; log = [] }

authorize_production_iff_example :
    authorize plain_strings production_validator (str "PING" ∷ []) ≡ ok tt
    ↔ IsAllowed plain_strings (str "PING" ∷ [])
authorize_production_iff_example = authorize_production_iff plain_strings (str "PING" ∷ [])

-- A wrong password.
authenticate-refused_example :
    ((authenticate plain_strings client "redis" 6380 "monitor" "guess" "monitor"
        production_validator production wire).1.log
      ≡ closed ∷ sent (auth "monitor" "guess") ∷ opened ∷ [])
    × ((s : Session)
        → (authenticate plain_strings client "redis" 6380 "monitor" "guess" "monitor"
            production_validator production wire).0
          ≢ ok s)
unfolding execute reply
authenticate-refused_example =
    authenticate-refused plain_strings client "redis" 6380 "monitor" "guess" "monitor"
      production_validator production wire refl tt

abbrev session : Session
session = record { environment = production; gate = production_validator; closed = false }

logged_in :
    (authenticate plain_strings client "redis" 6380 "monitor" "open sesame" "monitor"
      production_validator production wire).0
    ≡ ok session
unfolding authenticate open_client opening login execute reply after_auth accepted confirm authorize
    normalize_command command_of canonical is_one_of permit_normalized permit is_in same
    check_identity is_text
logged_in = refl

authenticate-identity_example :
    (execute client whoami
      (execute client (auth "monitor" "open sesame") (open_client client "redis" 6380 wire).1).1).0
    ≡ ok (text "monitor")
authenticate-identity_example =
    authenticate-identity plain_strings client "redis" 6380 "monitor" "open sesame" "monitor"
      production_validator production wire session logged_in

abbrev attestation : DisposableAttestation
attestation = record { host = "scratch"; port = 6399; nonce_key = "nonce"; nonce_value = "n0nce" }

attested :
    (make_negative_test_gate client "scratch" 6399 (some attestation) wire).0
    ≡ ok negative_test_gate
unfolding make_negative_test_gate classify_environment classify_attested probe open_client opening
    execute reply close_quietly close_client compare_nonce is_text require_disposable
attested = refl

make_negative_test_gate-IsAttested_example :
    (◌≢◌ {A = ℕ} 6399 production_port)
    × ((a : DisposableAttestation) × (some attestation ≡ some a)
        × IsAttested client "scratch" 6399 a wire)
make_negative_test_gate-IsAttested_example =
    make_negative_test_gate-IsAttested client "scratch" 6399 (some attestation) wire
      negative_test_gate attested
