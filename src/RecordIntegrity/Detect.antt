-- ===== src/RecordIntegrity/Detect.antt =====
-- What the verification of a stored row shows, and what it does not.
use omnibioai_security_audit.Prelude.{
  ℕ, ◌≡◌, ◌≢◌, refl, sym, ap, ◌∙◌, String, ◌<>◌, append_cancel_left, head_code, has_char, Bool,
  true, false, List, [], ◌∷◌, Option, some, arith, eq_iff,
}
use mathlib.Core.Option.{some-injective}
use omnibioai_security_audit.Python.{Result, ok, err, >>=-eq-ok, ok-inj}
use omnibioai_security_audit.Crypto.{compare_digest, IsCollisionFree}
use omnibioai_security_audit.Library.{Library}
use omnibioai_security_audit.Signing.{signing_key}
use omnibioai_security_audit.RecordIntegrity.Cells.{Record, get, put, null, text}
use omnibioai_security_audit.RecordIntegrity.Message.{
  field_text, canonical_parts, canonical_message, audit_event_fields,
}
use omnibioai_security_audit.RecordIntegrity.Tamper.{
  HasSingleLines, Agree, SingleLine, canonical_message-Agree,
}
use omnibioai_security_audit.RecordIntegrity.{
  stored_hash, integrity_key, hash_fields, compute_audit_event_hash, verify_audit_event_hash,
  compare_stored,
}

compare_digest-ok : (a b : String) → compare_digest a b ≡ ok true → a ≡ b
unfolding compare_digest
compare_digest-ok a b h = ground (arith, eq_iff a b)

compare_stored-ok :
    (h : String) (computed : Result String)
    → compare_stored h computed (ok false) ≡ ok true
    → computed ≡ ok h
unfolding compare_stored
compare_stored-ok h (err e) v = cc
compare_stored-ok h (ok expected) v = ground (arith, compare_digest-ok h expected)

module _ (lib : Library) where
  -- The hash of a row under the key that it names is accepted only as the hash of that row.
  verify_audit_event_hash-true :
      (r : Record) (secret key_id h : String)
      → stored_hash r ≡ some h
      → verify_audit_event_hash lib r secret (some key_id) ≡ ok true
      → compute_audit_event_hash lib r secret (some key_id) ≡ ok h
  unfolding verify_audit_event_hash
  verify_audit_event_hash-true r secret key_id h stored v =
      compare_stored-ok h (compute_audit_event_hash lib r secret (some key_id)) (ground arith)

  pub hash_fields-ok :
      (fs : List String) (legacy : Bool) (k : Option String) (r : Record) (secret h : String)
      → hash_fields lib fs legacy k r secret ≡ ok h
      → (m : String) × (canonical_message lib fs legacy k r ≡ ok m)
        × (lib.crypto.hexdigest (integrity_key lib secret) m ≡ h)
  unfolding hash_fields
  hash_fields-ok fs legacy k r secret h e =
      let (m, em, eh) = >>=-eq-ok (canonical_message lib fs legacy k r) _ e in (m, em, ok-inj eh)

hash_fields-cong :
    (lib : Library) (fs : List String) (k : Option String) (r r' : Record) (secret : String)
    → canonical_parts lib fs false r ≡ canonical_parts lib fs false r'
    → hash_fields lib fs false k r secret ≡ hash_fields lib fs false k r' secret
unfolding hash_fields canonical_message
hash_fields-cong lib fs k r r' secret h = rw h

key_part-SingleLine : (k : String) → SingleLine k → SingleLine ("integrity_key_id=" <> k)
unfolding has_char ◌<>◌
key_part-SingleLine k h = h

-- Whether a missing value or the word None stands in a column, its canonical text is the same.
field_text-null_None :
    (lib : Library) (r : Record) (column field : String)
    → column ≢ "context"
    → field_text lib false field (get field (put column null r))
      ≡ field_text lib false field (get field (put column (text "None") r))
unfolding field_text get
field_text-null_None lib r column field other =
    ground (arith, eq_iff column field, eq_iff field "context", eq_iff field "timestamp")

parts-null_None :
    (lib : Library) (fs : List String) (r : Record) (column : String)
    → column ≢ "context"
    → canonical_parts lib fs false (put column null r)
      ≡ canonical_parts lib fs false (put column (text "None") r)
unfolding canonical_parts
parts-null_None lib [] r column other = refl
parts-null_None lib (f ∷ fs) r column other =
    rw (field_text-null_None lib r column f other, parts-null_None lib fs r column other)

module _ (lib : Library) (free : IsCollisionFree lib.crypto) where
  integrity_key-inj :
      (secret secret' : String)
      → integrity_key lib secret ≡ integrity_key lib secret'
      → secret ≡ secret'
  unfolding integrity_key ◌<>◌
  integrity_key-inj secret secret' h =
      append_cancel_left "omnibioai-audit-record-integrity:" _ _ (free.sha256_inj _ _ h)

  -- With a collision-free HMAC: if a row verifies under the key that it names, with the hash of an
  -- earlier row, and neither row has a line break in the values or key names that are hashed, then
  -- the two rows agree in the canonical value of every covered column, name the same key, and were
  -- hashed under the same secret.
  pub verify_audit_event_hash-detects :
      (r r' : Record) (secret secret' key_id key_id' h : String)
      → compute_audit_event_hash lib r secret (some key_id) ≡ ok h
      → stored_hash r' ≡ some h
      → HasSingleLines lib false audit_event_fields r
      → HasSingleLines lib false audit_event_fields r'
      → SingleLine key_id
      → SingleLine key_id'
      → verify_audit_event_hash lib r' secret' (some key_id') ≡ ok true
      → Agree lib false audit_event_fields r r' × (key_id ≡ key_id') × (secret ≡ secret')
  unfolding compute_audit_event_hash integrity_key
  verify_audit_event_hash-detects r r' secret secret' key_id key_id' h made stored hr hr' hk hk' v =
      let computed = verify_audit_event_hash-true lib r' secret' key_id' h stored v in
      let (m, em, eh) = hash_fields-ok lib audit_event_fields false (some key_id) r secret h made in
      let (m', em', eh') =
        hash_fields-ok lib audit_event_fields false (some key_id') r' secret' h computed in
      let macs = eh ∙ sym eh' in
      let (digests, messages) = free.hexdigest_inj _ _ _ _ macs in
      let (agree, keys) =
        canonical_message-Agree lib "event_id" _ false r r' (some key_id) (some key_id') m hr hr'
          (key_part-SingleLine key_id hk, tt) (key_part-SingleLine key_id' hk', tt) em
          (em' ∙ ap ok (sym messages)) in
      (agree, some-injective _ _ keys, integrity_key-inj secret secret' digests)

  -- With a collision-free hash, the key for stored rows differs from the key for event signatures,
  -- whatever the two secrets.
  pub integrity_key-ne-signing_key :
      (secret secret' : String) → integrity_key lib secret ≢ signing_key lib.crypto secret'
  unfolding integrity_key signing_key ◌<>◌
  integrity_key-ne-signing_key secret secret' h =
      let labels = append_cancel_left "omnibioai-audit-" _ _ (free.sha256_inj _ _ h) in
      let heads : ◌≡◌ {A = ℕ} 114 101 = ap head_code labels in absurd (omega arith)

-- A row with no value in a column other than the context, and the row with the text None there,
-- have the same hash.
pub compute_audit_event_hash-null_None :
    (lib : Library) (r : Record) (column secret : String) (key_id : Option String)
    → column ≢ "context"
    → compute_audit_event_hash lib (put column null r) secret key_id
      ≡ compute_audit_event_hash lib (put column (text "None") r) secret key_id
unfolding compute_audit_event_hash
compute_audit_event_hash-null_None lib r column secret key_id other =
    hash_fields-cong lib audit_event_fields key_id _ _ secret
      (parts-null_None lib audit_event_fields r column other)
