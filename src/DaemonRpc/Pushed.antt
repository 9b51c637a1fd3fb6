-- ===== src/DaemonRpc/Pushed.antt =====
-- What a push (`NarSink::finalize` of crates/server/src/daemon_rpc.rs) leaves behind.
use kubernix.Prelude.{
  Option, none, some, Bytes, true, false, ◌≡◌, refl, ap, subst, arith, inl, inr, if-both,
  Bool-cases, Option-cases, ◌&&◌, &&-eq-true, some-injective,
}
use kubernix.Prelude.Eq.{◌==◌}
use kubernix.Prelude.Outcome.{Outcome, ok, err, panic, ok-injective}
use kubernix.StorePath.{store_path_eq}
use kubernix.Keys.{ObjectKey, Tier, tier_eq, verified, quarantined, is_vouchable, nar_key}
use kubernix.ContentPath.{ContentAddress, Rejection}
use kubernix.ContentPath.Check.{verify}
use kubernix.ContentPath.Verify.{IsContentOf, verify_iff}
use kubernix.MemoryStore.{MemoryStore}
use kubernix.MemoryStore.Methods.{object_known}
use kubernix.MemoryStore.Sharing
use kubernix.MemoryStore.Sharing.{signer, contains_sig, reject_unverified_pushes}
use kubernix.DaemonRpc.{Outside, Connection, RpcError}
use kubernix.DaemonRpc.Push.{
  Push, Session, Finalized, checked_tier, push_tier, keeps_existing, keep_existing, record_push,
  upload_push, compress_push, key_push, accept_push, finalize_as, finalize, stage,
}
use kubernix.DaemonRpc.Recorded.{record_signed-tier}

-- What decided on the tier of a push.
data Decided (out : Outside) (conn : Connection) (push : Push) (s : MemoryStore)
    : Tier → Type 0 where
  by_content :
      (ca : ContentAddress)
      → push.ca ≡ some ca
      → IsContentOf out.up.sha256 conn.store_dir push.info.path ca push.info.references push.nar
      → Decided out conn push s verified
  by_policy :
      push.ca ≡ none
      → reject_unverified_pushes conn.tenant s ≡ false
      → Decided out conn push s quarantined

-- The three ways in which a push succeeds: it is verified; it is quarantined, and nothing better was
-- there; or it is not taken, since its path is vouched for already.
pub data Accepted (out : Outside) (conn : Connection) (push : Push) (before after : Session)
    : Type 0 where
  as_verified :
      (ca : ContentAddress)
      → push.ca ≡ some ca
      → IsContentOf out.up.sha256 conn.store_dir push.info.path ca push.info.references push.nar
      → Sharing.tier conn.tenant push.info.path after.world.store ≡ some verified
      → Accepted out conn push before after
  as_quarantined :
      push.ca ≡ none
      → reject_unverified_pushes conn.tenant before.world.store ≡ false
      → ((existing : Tier)
          → Sharing.tier conn.tenant push.info.path before.world.store ≡ some existing
          → is_vouchable existing ≡ false)
      → Sharing.tier conn.tenant push.info.path after.world.store ≡ some quarantined
      → Accepted out conn push before after
  kept :
      (existing : Tier)
      → push.ca ≡ none
      → Sharing.tier conn.tenant push.info.path before.world.store ≡ some existing
      → is_vouchable existing ≡ true
      → after.world ≡ before.world
      → Accepted out conn push before after

-- A push that fails changes nothing.
abbrev pub PushPost : Outside → Connection → Push → Session → Finalized → Type 0
PushPost out conn push before (after, ok _) = Accepted out conn push before after
PushPost out conn push before (after, err e) = after ≡ before
PushPost out conn push before (after, panic) = after ≡ before

module _ (out : Outside) (conn : Connection) (push : Push) where
  checked_lem :
      (ca : ContentAddress) (s : MemoryStore) (r : Outcome Rejection (Unit {0})) (tier : Tier)
      → push.ca ≡ some ca
      → verify out.up.sha256 conn.store_dir push.info.path ca push.info.references push.nar ≡ r
      → checked_tier push.info.path r ≡ ok tier
      → Decided out conn push s tier
  unfolding checked_tier
  checked_lem ca s (ok _) tier e v h = subst (Decided out conn push s) (ok-injective h) (
      by_content ca e (
        (verify_iff out.up.sha256 conn.store_dir push.info.path ca push.info.references push.nar).0
          v))
  checked_lem ca s (err x) tier e v h = cc
  checked_lem ca s panic tier e v h = cc

  push_tier_lem :
      (s : MemoryStore) (tier : Tier)
      → push_tier out conn push s ≡ ok tier
      → Decided out conn push s tier
  unfolding push_tier
  push_tier_lem s tier h = elim (Option-cases push.ca) [
    | inr (ca, e) ↦ checked_lem ca s _ tier e refl (rw (e, push_tier) at h)
    | inl e ↦ elim (Bool-cases (reject_unverified_pushes conn.tenant s)) [
      | inl f ↦ cc (rw f at (rw (e, push_tier) at h))
      | inr f ↦
          subst (Decided out conn push s) (ok-injective (rw f at (rw (e, push_tier) at h)))
            (by_policy e f)
    ]
  ]

  not_kept :
      (before : Option Tier) (existing : Tier)
      → keeps_existing before quarantined ≡ false
      → before ≡ some existing
      → is_vouchable existing ≡ false
  unfolding keeps_existing
  not_kept none existing h e = cc
  not_kept (some t) existing h e = ground (arith, h, ap is_vouchable (some-injective e))

  decided_lem :
      (before after : Session) (tier : Tier)
      → Decided out conn push before.world.store tier
      → keeps_existing (Sharing.tier conn.tenant push.info.path before.world.store) tier ≡ false
      → Sharing.tier conn.tenant push.info.path after.world.store ≡ some tier
      → Accepted out conn push before after
  decided_lem before after _ (by_content ca e content) k t = as_verified ca e content t
  decided_lem before after _ (by_policy e f) k t = as_quarantined e f (λ x. not_kept _ x k) t

  kept_lem :
      (before after : Session) (tier : Tier) (existing : Option Tier)
      → Decided out conn push before.world.store tier
      → Sharing.tier conn.tenant push.info.path before.world.store ≡ existing
      → keeps_existing existing tier ≡ true
      → after.world ≡ before.world
      → Accepted out conn push before after
  unfolding keeps_existing
  kept_lem before after tier none d e k w = cc
  kept_lem before after _ (some t) (by_content ca c content) e k w = ground (arith, k)
  kept_lem before after _ (some t) (by_policy c f) e k w =
      kept t c e (&&-eq-true (is_vouchable t) true k).0 w

  module _ (tier : Tier) (before : Session) (d : Decided out conn push before.world.store tier)
      (k : keeps_existing (Sharing.tier conn.tenant push.info.path before.world.store) tier
        ≡ false) where
    upload_push_lem :
        (key : ObjectKey) (compressed : Bytes)
        → PushPost out conn push before (upload_push out conn push tier key compressed before)
    unfolding upload_push record_push stage
    upload_push_lem key compressed =
        elim (Bool-cases ((tier == verified) && object_known key before.world.store)) [
          | inl e ↦ rw e (
              decided_lem before _ tier d k
                (record_signed-tier out conn push.info _ tier before.world.store))
          | inr e ↦ rw e (elim (Bool-cases (out.put_object key compressed)) [
            | inl f ↦ rw f (
                decided_lem before _ tier d k
                  (record_signed-tier out conn push.info _ tier before.world.store))
            | inr f ↦ rw f refl
          ])
        ]

    key_push_lem :
        (key : Option ObjectKey)
        → PushPost out conn push before (key_push out conn push tier key before)
    unfolding key_push compress_push
    key_push_lem none = refl
    key_push_lem (some key) = elim (Option-cases (out.zstd push.nar)) [
      | inl e ↦ rw (e, compress_push) refl
      | inr (compressed, e) ↦ rw (e, compress_push) (upload_push_lem key compressed)
    ]

  finalize_as_lem :
      (decided : Outcome RpcError Tier) (before : Session)
      → ((tier : Tier) → decided ≡ ok tier → Decided out conn push before.world.store tier)
      → PushPost out conn push before (finalize_as out conn push decided before)
  unfolding finalize_as accept_push keep_existing stage
  finalize_as_lem (err e) before d = refl
  finalize_as_lem panic before d = refl
  finalize_as_lem (ok tier) before d =
      elim (Bool-cases
        (keeps_existing (Sharing.tier conn.tenant push.info.path before.world.store) tier)) [
          | inl e ↦ rw e (kept_lem before _ tier _ (d tier refl) refl e refl)
          | inr e ↦ rw e (
              if-both (PushPost out conn push before) conn.has_uploader
                (key_push_lem tier before (d tier refl) e (nar_key conn.tenant tier push.info.path))
                refl)
        ]

-- A push that succeeds is of a path whose content address was checked against the bytes, and which is
-- verified afterwards; or had no address, at a tenant that takes such pushes, and is quarantined, where
-- nothing vouched for was there; or had none, and left what is vouched for as it was. A push that fails
-- changes nothing.
pub finalize-PushPost :
    (out : Outside) (conn : Connection) (push : Push) (before : Session)
    → PushPost out conn push before (finalize out conn push before)
unfolding finalize
finalize-PushPost out conn push before =
    finalize_as_lem out conn push (push_tier out conn push before.world.store) before
      (λ tier h. push_tier_lem out conn push before.world.store tier h)
