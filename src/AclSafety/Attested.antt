-- ===== src/AclSafety/Attested.antt =====
-- A gate for disposable targets is only made on evidence from the target itself.
use omnibioai_security_audit.Prelude.{
  arith, ℕ, ◌≡◌, ◌≢◌, refl, ◌∙◌, ap, inl, inr, String, ◌==◌, eq_iff, true, false, not, ◌||◌,
  Bool-cases, ◌==ℕ◌, [], ◌∷◌, Option, none, some,
}
use omnibioai_security_audit.Python.{ok, ok-inj}
use omnibioai_security_audit.Python.Exec.Keeps.{attempt-eq-ok, bind-eq-ok, if-branch}
use omnibioai_security_audit.AclSafety.Command.{str}
use omnibioai_security_audit.AclSafety.Connection.{
  Client, Reply, text, truth, null, other, is_text, Wire, open_client, execute,
}
use omnibioai_security_audit.AclSafety.Environment.{
  RedisEnvironment, disposable, production, unknown, CommandGate, DisposableAttestation,
  production_port, probe, compare_nonce, classify_attested, classify_environment,
  require_disposable, make_negative_test_gate, close_quietly,
}

pub is_text-eq : (s : String) (r : Reply) → is_text s r ≡ true → r ≡ text s
unfolding is_text
is_text-eq s (text t) h = ap text ((eq_iff t s).0 h)
is_text-eq s (truth b) h = absurd (cc)
is_text-eq s null h = absurd (cc)
is_text-eq s (other t) h = absurd (cc)

same_endpoint :
    (h h' : String) (p p' : ℕ) → not (h == h') || not (p ==ℕ p') ≡ false → (h ≡ h') × (p ≡ p')
same_endpoint h h' p p' e = elim (Bool-cases (h == h')) [
  | inl f ↦ ((eq_iff h h').0 f, ground arith)
  | inr f ↦ ground arith
]

module _ {S : Type 0} (client : Client S) where
  -- The target answers the attested key with the attested nonce, on a new connection.
  abbrev pub IsAttested : String → ℕ → DisposableAttestation → Wire S → Type 0
  IsAttested host port a w =
      (a.host ≡ host)
      × (a.port ≡ port)
      × ((execute client (str "GET" ∷ str a.nonce_key ∷ []) (open_client client host port w).1).0
          ≡ ok (text a.nonce_value))

  probe-reply :
      (host : String) (port : ℕ) (key : String) (w : Wire S) (r : Reply)
      → (probe client host port key w).0 ≡ ok r
      → (execute client (str "GET" ∷ str key ∷ []) (open_client client host port w).1).0 ≡ ok r
  unfolding probe
  probe-reply host port key w r h = elim (attempt-eq-ok (open_client client host port) _ _ w h) [
    | inl (u, e, asked) ↦
        elim (attempt-eq-ok (execute client (str "GET" ∷ str key ∷ [])) _ _ _ asked) [
          | inl (got, f, shut) ↦
              let (v, g, same) = bind-eq-ok (close_quietly client) _ _ shut in
              rw f (ap ok (ok-inj same))
          | inr (x, f, shut) ↦
              let (v, g, same) = bind-eq-ok (close_quietly client) _ _ shut in absurd (cc)
        ]
    | inr (x, e, raised) ↦ absurd (cc)
  ]

  compare_nonce-disposable :
      (nonce : String) (r : Reply) (w : Wire S)
      → (compare_nonce client nonce r w).0 ≡ ok disposable
      → r ≡ text nonce
  unfolding compare_nonce
  compare_nonce-disposable nonce r w h = elim (if-branch (is_text nonce r) _ _ w h) [
    | inl (e, made) ↦ is_text-eq nonce r e
    | inr (e, raised) ↦ absurd (cc)
  ]

  classify_attested-disposable :
      (host : String) (port : ℕ) (attestation : Option DisposableAttestation) (w : Wire S)
      → (classify_attested client host port attestation w).0 ≡ ok disposable
      → (a : DisposableAttestation) × (attestation ≡ some a) × IsAttested host port a w
  unfolding classify_attested
  classify_attested-disposable host port none w h = let e = ok-inj h in absurd (cc)
  classify_attested-disposable host port (some a) w h =
      elim (if-branch (not (a.host == host) || not (a.port ==ℕ port)) _ _ w h) [
        | inl (e, raised) ↦ absurd (cc)
        | inr (e, probed) ↦
            let (r, asked, compared) =
              bind-eq-ok (probe client host port a.nonce_key) (compare_nonce client a.nonce_value) w
                probed in
            let (same_host, same_port) = same_endpoint a.host host a.port port e in
            (
              a,
              refl,
              (
                same_host,
                same_port,
                probe-reply host port a.nonce_key w r asked
                    ∙ ap ok (compare_nonce-disposable a.nonce_value r _ compared),
              ),
            )
      ]

  -- Only evidence from the target makes it disposable, and never on the production port.
  pub classify_environment-disposable :
      (host : String) (port : ℕ) (attestation : Option DisposableAttestation) (w : Wire S)
      → (classify_environment client host port attestation w).0 ≡ ok disposable
      → (port ≢ production_port)
        × ((a : DisposableAttestation) × (attestation ≡ some a) × IsAttested host port a w)
  unfolding classify_environment
  classify_environment-disposable host port attestation w h =
      elim (if-branch (port ==ℕ production_port) _ _ w h) [
        | inl (e, made) ↦ let other = ok-inj made in absurd (cc)
        | inr (e, attested) ↦
            (λ same. ground arith, classify_attested-disposable host port attestation w attested)
      ]

  require_disposable-ok :
      (message : String) (gate made : CommandGate) (environment : RedisEnvironment) (w : Wire S)
      → (require_disposable client message gate environment w).0 ≡ ok made
      → environment ≡ disposable
  unfolding require_disposable
  require_disposable-ok message gate made disposable w h = refl
  require_disposable-ok message gate made production w h = absurd (cc)
  require_disposable-ok message gate made unknown w h = absurd (cc)

  -- The gate that lets dangerous commands through is only made for a target that is not on the
  -- production port, whose attestation is for that host and port, and that answered the attested
  -- key with the attested nonce on a connection opened for it.
  pub make_negative_test_gate-IsAttested :
      (host : String) (port : ℕ) (attestation : Option DisposableAttestation) (w : Wire S)
      (gate : CommandGate)
      → (make_negative_test_gate client host port attestation w).0 ≡ ok gate
      → (port ≢ production_port)
        × ((a : DisposableAttestation) × (attestation ≡ some a) × IsAttested host port a w)
  unfolding make_negative_test_gate
  make_negative_test_gate-IsAttested host port attestation w gate h =
      let (environment, classified, required) =
        bind-eq-ok (classify_environment client host port attestation) _ w h in
      let e = require_disposable-ok _ _ _ environment _ required in
      classify_environment-disposable host port attestation w (classified ∙ ap ok e)
