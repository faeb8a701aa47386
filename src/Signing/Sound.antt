-- ===== src/Signing/Sound.antt =====
-- What a signature of audit/signing.py is worth.
use omnibioai_security_audit.Prelude.{
  ◌≡◌, ◌↔◌, refl, sym, ap, ◌∙◌, String, ◌<>◌, partition, has_char, split_inj, append_cancel_left,
  eq_iff, eq_refl, truthy, true, false, some, arith, partition-join, append_assoc, truthy-append,
  truthy-cons,
}
use omnibioai_security_audit.Python.{ok}
use omnibioai_security_audit.Crypto.{Crypto, IsHex, IsCollisionFree, is_ascii, compare_digest}
use omnibioai_security_audit.Signing.{
  sign_audit_event, verify_audit_event, verify_signature, event_mac, signing_message, signing_key,
  caught,
}

-- `version <> (":" <> mac)` is read back whole.
partition-v1 : (mac : String) → partition b':' ("v1" <> (":" <> mac)) ≡ ("v1", true, mac)
unfolding partition ◌<>◌
partition-v1 mac = refl

partition-colon :
    (s : String)
    → (partition b':' s).1 ≡ true
    → s ≡ (partition b':' s).0 <> (":" <> (partition b':' s).2)
unfolding ◌<>◌
partition-colon s h = partition-join ":" s h

pub compare_digest-true : (a b : String) → caught (compare_digest a b) ≡ true → a ≡ b
unfolding compare_digest
compare_digest-true a b h = ground (arith, eq_iff a b)

pub compare_digest_self : (a : String) → is_ascii a ≡ true → compare_digest a a ≡ ok true
unfolding compare_digest
compare_digest_self a h = rw (h, eq_refl)

module _ (c : Crypto) (hex : IsHex c) where
  verify_signature-sign :
      (service text secret : String)
      → verify_signature c service text
          ("v1" <> (":" <> event_mac c "v1" service text secret))
          secret
        ≡ ok true
  unfolding verify_signature event_mac
  verify_signature-sign service text secret = rw (
    partition-v1,
    compare_digest_self (c.hexdigest (signing_key c secret) (signing_message "v1" service text))
        (hex.is_ascii-hexdigest (signing_key c secret) (signing_message "v1" service text)),
  )

module _ (c : Crypto) where
  verify_signature-true :
      (service text signature secret : String)
      → caught (verify_signature c service text signature secret) ≡ true
      → "v1" <> (":" <> event_mac c "v1" service text secret) ≡ signature
  unfolding verify_signature
  verify_signature-true service text signature secret h = ground (
    arith,
    partition-colon signature,
    eq_iff (partition 58 signature).0 "v1",
    compare_digest-true (partition 58 signature).2
        (event_mac c (partition 58 signature).0 service text secret),
  )

  verify_audit_event-true :
      (service text signature secret : String)
      → verify_audit_event c service (some text) (some signature) secret ≡ true
      → "v1" <> (":" <> event_mac c "v1" service text secret) ≡ signature
  unfolding verify_audit_event
  verify_audit_event-true service text signature secret h =
      ground (arith, verify_signature-true service text signature secret)

  signed-ne_nil : (mac : String) → truthy ("v1" <> (":" <> mac)) ≡ true
  unfolding ◌<>◌
  signed-ne_nil mac = truthy-cons "v" ("1" <> (":" <> mac))

module _ (c : Crypto) (hex : IsHex c) where
  -- If the digest is hexadecimal, the verifier accepts a signature of a service and a text exactly
  -- when it is the one that the signer makes for that service, that text and that secret.
  pub verify_audit_event_iff :
      (service text signature secret : String)
      → (verify_audit_event c service (some text) (some signature) secret ≡ true)
        ↔ (sign_audit_event c service (some text) secret ≡ ok signature)
  unfolding sign_audit_event verify_audit_event
  verify_audit_event_iff service text signature secret = (
    λ h. ground (arith, verify_signature-true c service text signature secret),
    λ h. ground (
      arith,
      verify_signature-sign c hex service text secret,
      signed-ne_nil c (event_mac c "v1" service text secret),
    ),
  )

module _ (c : Crypto) (free : IsCollisionFree c) where
  sign-eq-ok :
      (service text signature secret : String)
      → sign_audit_event c service (some text) secret ≡ ok signature
      → signature ≡ "v1" <> (":" <> event_mac c "v1" service text secret)
  unfolding sign_audit_event
  sign-eq-ok service text signature secret h = ground arith

  event_mac_inj :
      (service service' text text' secret secret' : String)
      → has_char b'\n' service ≡ false
      → has_char b'\n' service' ≡ false
      → event_mac c "v1" service text secret ≡ event_mac c "v1" service' text' secret'
      → (service ≡ service') × (text ≡ text') × (secret ≡ secret')
  unfolding event_mac signing_message signing_key ◌<>◌
  event_mac_inj service service' text text' secret secret' n n' h =
      let (digests, hashed) = free.hexdigest_inj _ _ _ _ h in
      let keys = free.sha256_inj _ _ digests in
      let messages = append_cancel_left "v1\n" _ _ hashed in
      let parts = split_inj "\n" service service' text text' n n' (messages) in
      (parts.0, parts.1, append_cancel_left "omnibioai-audit-events:" _ _ keys)

  -- With a collision-free HMAC, for service names without a line break: a signature that was made
  -- for one service, text and secret and verifies for another is for the same service, text and
  -- secret.
  pub sign_audit_event_inj :
      (service service' text text' secret secret' signature : String)
      → has_char b'\n' service ≡ false
      → has_char b'\n' service' ≡ false
      → sign_audit_event c service (some text) secret ≡ ok signature
      → verify_audit_event c service' (some text') (some signature) secret' ≡ true
      → (service ≡ service') × (text ≡ text') × (secret ≡ secret')
  sign_audit_event_inj service service' text text' secret secret' signature n n' made accepted =
      let macs =
        verify_audit_event-true c service' text' signature secret' accepted
        ∙ sign-eq-ok service text signature secret made in
      let (services, texts, secrets) =
        event_mac_inj service service' text text' secret secret' n n'
          (append_cancel_left "v1:" _ _ (unfold ◌<>◌ in sym macs)) in
      (services, texts, secrets)

messages-collide :
    (version service rest text : String)
    → signing_message version service (rest <> ("\n" <> text))
      ≡ signing_message version (service <> ("\n" <> rest)) text
unfolding signing_message
messages-collide version service rest text =
    ap (λ m. version <> ("\n" <> m))
      (sym (
        append_assoc service ("\n" <> rest) ("\n" <> text)
        ∙ ap (λ m. service <> m) (append_assoc "\n" rest ("\n" <> text))))

-- For a service name that is not empty: the signature of a text with a line break is that of the
-- service name lengthened by the text's first line, with the rest of the text.
pub sign_audit_event-collision :
    (c : Crypto) (service rest text secret : String)
    → truthy service ≡ true
    → sign_audit_event c service (some (rest <> ("\n" <> text))) secret
      ≡ sign_audit_event c (service <> ("\n" <> rest)) (some text) secret
unfolding sign_audit_event event_mac
sign_audit_event-collision c service rest text secret named =
    rw (named, truthy-append service ("\n" <> rest) named)
      (ap (λ m. ok ("v1" <> (":" <> c.hexdigest (signing_key c secret) m)))
        (messages-collide "v1" service rest text))
