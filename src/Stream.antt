-- ===== src/Stream.antt =====
-- consumers/stream_reader.py over the Redis commands that it sends.
use mathlib.Core.List.{reverse}
use omnibioai_security_audit.Prelude.{
  ℕ, String, ◌==◌, contains, Bool, ◌&&◌, List, [], ◌∷◌, map, none, some, leb, ltb, Dict, lookup,
  if◌then◌else◌,
}
use omnibioai_security_audit.Python.{Exn, Result, ok, err}
use omnibioai_security_audit.Python.Exec.{Exec, pure, lift, attempt, ◌>>=◌}
use omnibioai_security_audit.Config.{AuditConfig}

-- The fields of a stream entry.
abbrev pub Entry : Type 0
Entry = Dict String

-- A message as XREADGROUP, XCLAIM and XRANGE return it.
abbrev pub Message : Type 0
Message = String × Entry

-- A row of XPENDING's extended form.
pub record PendingEntry : Type 0 where
  pub message_id : String
  pub times_delivered : ℕ

-- The commands on the one stream and group, over the server's states `R`.
pub record Redis (R : Type 0) : Type 0 where
  pub xgroup_create : Exec R (Unit {0})
  pub xreadgroup : String → Exec R (List (String × List Message))
  pub xack : String → Exec R (Unit {0})
  pub xpending_range : ℕ → ℕ → Exec R (List PendingEntry)
  pub xrange : String → Exec R (List Message)
  pub xclaim : String → ℕ → List String → Exec R (List Message)
  -- Whether the group still owes an entry: it was not delivered yet, or it is pending.
  pub owes : String → R → Bool

-- A poison entry with the number of its deliveries.
abbrev pub PoisonEntry : Type 0
PoisonEntry = String × Entry × ℕ

-- `[e["message_id"] for e in stale if e["times_delivered"] >= max_deliveries]`
unfoldable pub poison_ids : ℕ → List PendingEntry → List String
poison_ids max [] = []
poison_ids max (e ∷ es) =
    let rest = poison_ids max es in if leb max e.times_delivered then e.message_id ∷ rest else rest

-- `[e["message_id"] for e in stale if e["times_delivered"] < max_deliveries]`
unfoldable pub reclaimable_ids : ℕ → List PendingEntry → List String
reclaimable_ids max [] = []
reclaimable_ids max (e ∷ es) =
    let rest = reclaimable_ids max es in
    if ltb e.times_delivered max then e.message_id ∷ rest else rest

-- `{e["message_id"]: e["times_delivered"] for e in stale}`: the last entry of a key counts.
unfoldable pub deliveries_by_id : List PendingEntry → Dict ℕ
deliveries_by_id stale = reverse (map (λ e. (e.message_id, e.times_delivered)) stale)

abbrev pub key_error : String → Exn
key_error k = record { kind = "KeyError"; message = k }

-- `d[k]`
unfoldable pub item {ℓ} : {V : Type ℓ} → String → Dict V → Result V
item k d = elim (lookup k d) [ none ↦ err (key_error k) | some v ↦ ok v ]

-- `entry_range[0][1] if entry_range else {}`
abbrev pub first_fields : List Message → Entry
first_fields [] = []
first_fields ((i, fields) ∷ rest) = fields

module _ {R : Type 0} (redis : Redis R) (cfg : AuditConfig) where
  -- BUSYGROUP says that the group is there.
  unfoldable pub ensure_group : Exec R (Unit {0})
  ensure_group = attempt redis.xgroup_create pure λ e.
      if e.kind == "ResponseError" && contains e.message "BUSYGROUP" then pure tt else lift (err e)

  unfoldable pub read_group : String → Exec R (List (String × List Message))
  read_group consumer_name = redis.xreadgroup consumer_name

  unfoldable pub ack : String → Exec R (Unit {0})
  ack message_id = redis.xack message_id

  unfoldable pub fetch_poison : Dict ℕ → List String → Exec R (List PoisonEntry)
  fetch_poison deliveries [] = pure []
  fetch_poison deliveries (message_id ∷ ids) = do
    entry_range ← redis.xrange message_id
    attempts ← lift (item message_id deliveries)
    rest ← fetch_poison deliveries ids
    pure ((message_id, first_fields entry_range, attempts) ∷ rest)

  unfoldable pub claim : String → List String → Exec R (List Message)
  claim consumer_name [] = pure []
  claim consumer_name (i ∷ ids) = redis.xclaim consumer_name cfg.pel_min_idle_ms (i ∷ ids)

  unfoldable pub claim_entries :
      String → List PendingEntry → Exec R (List Message × List PoisonEntry)
  claim_entries consumer_name stale = do
    poison_entries ← fetch_poison (deliveries_by_id stale) (poison_ids cfg.pel_max_deliveries stale)
    claimed ← claim consumer_name (reclaimable_ids cfg.pel_max_deliveries stale)
    pure (claimed, poison_entries)

  -- `if not stale: return [], []`
  unfoldable pub claim_if_stale :
      String → List PendingEntry → Exec R (List Message × List PoisonEntry)
  claim_if_stale consumer_name [] = pure ([], [])
  claim_if_stale consumer_name (e ∷ es) = claim_entries consumer_name (e ∷ es)

  unfoldable pub claim_stale : String → Exec R (List Message × List PoisonEntry)
  claim_stale consumer_name = do
    stale ← redis.xpending_range cfg.pel_sweep_batch cfg.pel_min_idle_ms
    claim_if_stale consumer_name stale
