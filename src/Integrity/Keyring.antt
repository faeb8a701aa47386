-- ===== src/Integrity/Keyring.antt =====
-- The keys that the verification accepts, against those that the writers of rows accept.
use Prim.Native.String.{len}
use omnibioai_security_audit.Prelude.{
  ◌≡◌, ◌≤◌, ◌≢◌, ◌⊎◌, ◌↔◌, inl, inr, refl, ap, arith, String, ◌==◌, truthy, ◌||◌, not, ◌∙◌, true,
  false, Option, none, some, Dict, lookup, insert, eq_iff, eq_refl, lookup-insert, Bool-cases, ltb,
}
use omnibioai_security_audit.Python.{ok, err}
use omnibioai_security_audit.Crypto.{compare_digest}
use omnibioai_security_audit.Config.{
  AuditConfig, require_record_integrity_key, check_key, check_independent, is_key_id,
}
use omnibioai_security_audit.Config.Policy.{require_record_integrity_key-ok}
use omnibioai_security_audit.Integrity.{exit_1, legacy_id, check_pair, legacy_keys, resolve_keys}

check_pair-ok :
    (legacy : Option String) (current : String) (keys found : Dict String)
    → check_pair legacy current keys ≡ ok found
    → (found ≡ keys) × (legacy ≢ some current)
unfolding check_pair compare_digest
check_pair-ok none current keys found h = (ground arith, λ e. cc)
check_pair-ok (some legacy) current keys found h =
    (ground arith, λ e. ground (arith, eq_iff legacy current))

lookup-legacy_keys : (legacy : Option String) → lookup legacy_id (legacy_keys legacy) ≡ legacy
unfolding lookup legacy_keys
lookup-legacy_keys none = refl
lookup-legacy_keys (some legacy) = refl

-- A keyring that was accepted with a current key: the key has at least 32 bytes and an identifier of
-- the documented form that is not the reserved one, it differs from the legacy key, and the keyring
-- gives it for that identifier, and the legacy key, if there is one, for rows that name no key.
pub resolve_keys-ok :
    (legacy : Option String) (current : String) (key_id : Option String) (keys : Dict String)
    → resolve_keys legacy (some current) key_id ≡ ok keys
    → (id : String) × (key_id ≡ some id)
      × (id ≢ legacy_id)
      × (32 ≤ len current)
      × (is_key_id id ≡ true)
      × (legacy ≢ some current)
      × (lookup id keys ≡ some current)
      × (lookup legacy_id keys ≡ legacy)
unfolding resolve_keys
resolve_keys-ok legacy current none keys h = absurd (cc)
resolve_keys-ok legacy current (some id) keys h = elim (Bool-cases (id == legacy_id)) [
  | inl reserved ↦ absurd (let bad = rw reserved at h in cc)
  | inr free ↦ elim (Bool-cases (ltb (len current) 32 || not (is_key_id id))) [
    | inl weak ↦ absurd (let bad = rw (free, weak) at h in cc)
    | inr strong ↦
        let (made, independent) = check_pair-ok legacy current _ keys (rw (free, strong) at h) in
        (
          id,
          refl,
          λ e. ground (arith, eq_iff id legacy_id),
          ground arith,
          ground arith,
          independent,
          ap (lookup id) made
              ∙ (lookup-insert id id current (legacy_keys legacy) ∙ rw (eq_refl id) refl),
          ap (lookup legacy_id) made
              ∙ (lookup-insert id legacy_id current (legacy_keys legacy)
                  ∙ rw free (lookup-legacy_keys legacy)),
        )
  ]
]

-- A legacy key, if there is one, that was compared with the current key and found different.
abbrev pub IsApart : Option String → String → Type 0
IsApart none key = Unit {0}
IsApart (some legacy) key = compare_digest legacy key ≡ ok false

check_pair-apart :
    (legacy : Option String) (key : String) (keys : Dict String)
    → IsApart legacy key
    → check_pair legacy key keys ≡ ok keys
unfolding check_pair
check_pair-apart none key keys apart = refl
check_pair-apart (some legacy) key keys apart = rw apart refl

-- What the verification asks of a key that is apart from the legacy key.
resolve_keys_iff :
    (legacy : Option String) (key key_id : String)
    → IsApart legacy key
    → (resolve_keys legacy (some key) (some key_id) ≡ ok (insert key_id key (legacy_keys legacy)))
      ↔ ((key_id ≢ legacy_id) × (32 ≤ len key) × (is_key_id key_id ≡ true))
unfolding resolve_keys
resolve_keys_iff legacy key key_id apart = (
  λ h.
      let (id, named, free, long, shaped, apart, here, older) =
        resolve_keys-ok legacy key (some key_id) _ h in
      let e : id ≡ key_id = cc in (rw e at free, long, rw e at shaped),
  λ (free, long, shaped).
      let passes = check_pair-apart legacy key (insert key_id key (legacy_keys legacy)) apart in
      ground (arith, eq_iff key_id legacy_id),
)

long-truthy : (key : String) → 32 ≤ len key → truthy key ≡ true
long-truthy key long = elim (Bool-cases (key == "")) [
  | inl blank ↦ let e : len key ≡ 0 = ap len ((eq_iff key "").0 blank) in absurd (omega arith)
  | inr more ↦ rw more refl
]

key_id-truthy : (key_id : String) → is_key_id key_id ≡ true → truthy key_id ≡ true
unfolding is_key_id
key_id-truthy key_id shaped = elim (Bool-cases (key_id == "")) [
  | inl blank ↦
      let e : is_key_id key_id ≡ false = ap is_key_id ((eq_iff key_id "").0 blank) in absurd (cc)
  | inr more ↦ rw more refl
]

check_independent-apart :
    (key secret : String)
    → ((secret ≡ "") ⊎ (compare_digest key secret ≡ ok false))
      ↔ (check_independent key secret ≡ ok tt)
unfolding check_independent
check_independent-apart key secret =
    (λ h. ground (arith, eq_iff secret ""), λ h. ground (arith, eq_iff secret ""))

-- What the writers ask of the key and identifier of their configuration.
require_record_integrity_key_iff :
    (cfg : AuditConfig) (key key_id : String)
    → (require_record_integrity_key cfg ≡ ok (key, key_id)) ↔ (
        (cfg.record_integrity_key ≡ some key)
        × (cfg.record_integrity_key_id ≡ some key_id)
        × (32 ≤ len key)
        × (is_key_id key_id ≡ true)
        × ((cfg.event_signing_secret ≡ "")
            ⊎ (compare_digest key cfg.event_signing_secret ≡ ok false)))
unfolding require_record_integrity_key check_key
require_record_integrity_key_iff cfg key key_id = (
  λ h.
      let (found, named, long, shaped, apart) = require_record_integrity_key-ok cfg key key_id h in
      let passed : check_independent key cfg.event_signing_secret ≡ ok tt = ground arith in
      (found, named, long, shaped, (check_independent-apart key cfg.event_signing_secret).1 passed),
  λ (found, named, long, shaped, apart).
      let k = long-truthy key long in
      let i = key_id-truthy key_id shaped in
      let passes = (check_independent-apart key cfg.event_signing_secret).0 apart in ground arith,
)

-- With no legacy key, or one whose comparison with the current key says that they differ: the
-- writers accept a key and an identifier exactly if those are the configured ones, the secret that
-- signs events is empty or its comparison with the key says that they differ, and either the
-- verification accepts them too, or the identifier is the reserved one, which it refuses, and the
-- key has at least 32 bytes.
pub require_record_integrity_key-resolve_keys_iff :
    (cfg : AuditConfig) (legacy : Option String) (key key_id : String)
    → IsApart legacy key
    → (require_record_integrity_key cfg ≡ ok (key, key_id)) ↔ (
        (cfg.record_integrity_key ≡ some key)
        × (cfg.record_integrity_key_id ≡ some key_id)
        × ((cfg.event_signing_secret ≡ "")
            ⊎ (compare_digest key cfg.event_signing_secret ≡ ok false))
        × ((resolve_keys legacy (some key) (some key_id)
              ≡ ok (insert key_id key (legacy_keys legacy)))
            ⊎ ((key_id ≡ legacy_id)
                × (32 ≤ len key)
                × (resolve_keys legacy (some key) (some key_id) ≡ err exit_1))))
unfolding is_key_id resolve_keys
require_record_integrity_key-resolve_keys_iff cfg legacy key key_id apart = (
  λ h.
      let (found, named, long, shaped, independent) =
        (require_record_integrity_key_iff cfg key key_id).0 h in
      (
        found,
        named,
        independent,
        elim (Bool-cases (key_id == legacy_id)) [
          | inl reserved ↦ inr ((eq_iff key_id legacy_id).0 reserved, long, rw reserved refl)
          | inr free ↦ inl (
              (resolve_keys_iff legacy key key_id apart).1
                ((λ e. ground (arith, eq_iff key_id legacy_id)), long, shaped))
        ],
      ),
  λ (found, named, independent, verifies).
      (require_record_integrity_key_iff cfg key key_id).1 (elim verifies [
        | inl accepted ↦
            let (free, long, shaped) = (resolve_keys_iff legacy key key_id apart).0 accepted in
            (found, named, long, shaped, independent)
        | inr (reserved, long, refused) ↦ (found, named, long, rw reserved refl, independent)
      ]),
)
