-- ===== src/Worker/Accounted/Reader.antt =====
-- The stream reader loses no entry that the group owes.
use omnibioai_security_audit.Prelude.{
  ℕ, ◌≡◌, ◌∙◌, ap, String, ◌==◌, ◌&&◌, contains, true, List, [], ◌∷◌, Option, Dict, All,
}
use omnibioai_security_audit.Python.{ok, err, ok-inj}
use omnibioai_security_audit.Python.Exec.{pure, lift}
use omnibioai_security_audit.Python.Exec.Keeps.{
  Keeps, Keeps-pure, Keeps-lift, Keeps-if, Keeps-attempt, bind-eq-ok,
}
use omnibioai_security_audit.Config.{AuditConfig}
use omnibioai_security_audit.Stream
use omnibioai_security_audit.Stream.{
  Redis, Entry, PoisonEntry, PendingEntry, ensure_group, read_group, fetch_poison, claim,
  claim_entries, claim_stale, item, poison_ids, reclaimable_ids, deliveries_by_id,
}
use omnibioai_security_audit.Worker.Accounted.{IsReliable, IsDelivered}

module _ {R : Type 0} (redis : Redis R) (cfg : AuditConfig) (content : String → Option Entry)
    (reliable : IsReliable redis content) (i : String) where
  abbrev pub Owed : R → Type 0
  Owed s = redis.owes i s ≡ true

  pub ensure_group-Owed : Keeps Owed (ensure_group redis cfg)
  unfolding ensure_group
  ensure_group-Owed =
      Keeps-attempt redis.xgroup_create pure _ (record { at = reliable.create_owes i }) Keeps-pure
        (λ e.
          Keeps-if (e.kind == "ResponseError" && contains e.message "BUSYGROUP") _ _ (Keeps-pure tt)
            (Keeps-lift (err e)))

  pub read_group-Owed : (c : String) → Keeps Owed (read_group redis cfg c)
  unfolding read_group
  read_group-Owed c = record { at = reliable.read_owes c i }

  fetch_poison-Owed : (d : Dict ℕ) (ids : List String) → Keeps Owed (fetch_poison redis cfg d ids)
  unfolding fetch_poison
  fetch_poison-Owed d [] = Keeps-pure []
  fetch_poison-Owed d (j ∷ ids) =
      Keeps-attempt (redis.xrange j) _ _ (record { at = reliable.range_owes j i })
        (λ range.
          Keeps-attempt (lift (item j d)) _ _ (Keeps-lift (item j d))
            (λ n.
              Keeps-attempt (fetch_poison redis cfg d ids) _ _ (fetch_poison-Owed d ids)
                (λ rest. Keeps-pure _) (λ e. Keeps-lift (err e)))
            (λ e. Keeps-lift (err e)))
        (λ e. Keeps-lift (err e))

  claim-Owed : (c : String) (ids : List String) → Keeps Owed (claim redis cfg c ids)
  unfolding claim
  claim-Owed c [] = Keeps-pure []
  claim-Owed c (j ∷ ids) = record { at = reliable.claim_owes c cfg.pel_min_idle_ms (j ∷ ids) i }

  claim_entries-Owed :
      (c : String) (stale : List PendingEntry) → Keeps Owed (claim_entries redis cfg c stale)
  unfolding claim_entries
  claim_entries-Owed c stale =
      Keeps-attempt _ _ _ (fetch_poison-Owed _ _)
        (λ poison.
          Keeps-attempt _ _ _ (claim-Owed c _) (λ claimed. Keeps-pure _) (λ e. Keeps-lift (err e)))
        (λ e. Keeps-lift (err e))

  stale-Owed :
      (c : String) (stale : List PendingEntry)
      → Keeps Owed (Stream.claim_if_stale redis cfg c stale)
  unfolding Stream.claim_if_stale
  stale-Owed c [] = Keeps-pure ([], [])
  stale-Owed c (e ∷ es) = claim_entries-Owed c (e ∷ es)

  pub claim_stale-Owed : (c : String) → Keeps Owed (claim_stale redis cfg c)
  unfolding claim_stale
  claim_stale-Owed c =
      Keeps-attempt (redis.xpending_range cfg.pel_sweep_batch cfg.pel_min_idle_ms) _ _
        (record { at = reliable.pending_owes cfg.pel_sweep_batch cfg.pel_min_idle_ms i })
        (stale-Owed c) (λ e. Keeps-lift (err e))

module _ {R : Type 0} (redis : Redis R) (cfg : AuditConfig) (content : String → Option Entry)
    (reliable : IsReliable redis content) where
  claim-IsDelivered :
      (c : String) (ids : List String) (s : R) (l : List Stream.Message)
      → (claim redis cfg c ids s).0 ≡ ok l
      → All (IsDelivered content) l
  unfolding claim
  claim-IsDelivered c [] s [] h = tt
  claim-IsDelivered c [] s (x ∷ l) h = absurd (cc)
  claim-IsDelivered c (j ∷ ids) s l h = reliable.claim_delivers c _ (j ∷ ids) s l h

  stale-IsDelivered :
      (c : String) (stale : List PendingEntry) (s : R) (l : List Stream.Message)
      (p : List PoisonEntry)
      → (Stream.claim_if_stale redis cfg c stale s).0 ≡ ok (l, p)
      → All (IsDelivered content) l
  unfolding Stream.claim_if_stale claim_entries
  stale-IsDelivered c [] s [] p h = tt
  stale-IsDelivered c [] s (x ∷ l) p h = absurd (cc)
  stale-IsDelivered c (e ∷ es) s l p h =
      let stale : List PendingEntry = e ∷ es in
      let poisons =
        fetch_poison redis cfg (deliveries_by_id stale) (poison_ids cfg.pel_max_deliveries stale) in
      let claims = claim redis cfg c (reclaimable_ids cfg.pel_max_deliveries stale) in
      let (poison, e1, r1) = bind-eq-ok poisons _ s h in
      let (claimed, e2, r2) = bind-eq-ok claims _ (poisons s).1 r1 in
      let same : claimed ≡ l = ap (λ x. x.0) (ok-inj r2) in
      claim-IsDelivered c _ _ l (e2 ∙ ap ok same)

  pub claim_stale-IsDelivered :
      (c : String) (s : R) (l : List Stream.Message) (p : List PoisonEntry)
      → (claim_stale redis cfg c s).0 ≡ ok (l, p)
      → All (IsDelivered content) l
  unfolding claim_stale
  claim_stale-IsDelivered c s l p h =
      let (stale, e, r) =
        bind-eq-ok (redis.xpending_range cfg.pel_sweep_batch cfg.pel_min_idle_ms) _ s h in
      stale-IsDelivered c stale _ l p r
