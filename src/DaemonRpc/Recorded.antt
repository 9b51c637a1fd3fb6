-- ===== src/DaemonRpc/Recorded.antt =====
-- What is recorded of a path that the frontend signs (crates/server/src/daemon_rpc.rs).
use kubernix.Prelude.{
  Option, none, some, Bytes, ◌≡◌, refl, sym, ap, ◌∙◌, arith, inl, inr, if-both, Bool-cases,
}
use kubernix.Prelude.Eq.{◌==◌}
use kubernix.Prelude.Map
use kubernix.Prelude.Map.{get-insert, get-insert_self}
use kubernix.Prelude.Outcome.{Outcome, ok, err, panic}
use kubernix.TenantId.{TenantId}
use kubernix.StorePath.{StorePath, store_path_eq}
use kubernix.Keys.{Tier, tier_eq, is_vouchable}
use kubernix.PathInfo.{PathInfo, RemoteObject}
use kubernix.Signing.{SignError, sign_path}
use kubernix.MemoryStore.{LocalSigner, Inner, MemoryStore, partition}
use kubernix.MemoryStore.Methods.{put_path}
use kubernix.MemoryStore.Sharing
use kubernix.MemoryStore.Sharing.{signer, contains_sig, reject_unverified_pushes}
use kubernix.MemoryStore.History.{record_path_self}
use kubernix.DaemonRpc.{
  Outside, Connection, fingerprint_of, with_signature, sign_with, sign_if_vouchable, record_signed,
}
use kubernix.MemoryStore.Sharing.{give_found, give_signer}
use kubernix.MemoryStore.History.{signer_op, step, effect, step_own}

give_found-tiers :
    (seed : Bytes) (t : TenantId) (found : Option LocalSigner) (inner : Inner)
    → (give_found seed t found inner).0.tiers ≡ inner.tiers
unfolding give_found
give_found-tiers seed t (some key) inner = refl
give_found-tiers seed t none inner = refl

module _ (out : Outside) (conn : Connection) where
  with_signature-path :
      (info : PathInfo) (r : Outcome SignError Bytes) → (with_signature info r).path ≡ info.path
  unfolding with_signature
  with_signature-path info (ok sig) = ground arith
  with_signature-path info (err e) = refl
  with_signature-path info panic = refl

  sign_with-path :
      (info : PathInfo) (x : MemoryStore × Option LocalSigner)
      → (sign_with out conn info x).1.path ≡ info.path
  unfolding sign_with
  sign_with-path info (s, none) = refl
  sign_with-path info (s, some key) =
      with_signature-path info (sign_path out.ed key (fingerprint_of conn info))

  sign_if_vouchable-path :
      (info : PathInfo) (tier : Tier) (s : MemoryStore)
      → (sign_if_vouchable out conn info tier s).1.path ≡ info.path
  unfolding sign_if_vouchable
  sign_if_vouchable-path info tier s = elim (Bool-cases (is_vouchable tier)) [
    | inl e ↦ rw e (sign_with-path info (signer out.seed conn.tenant s))
    | inr e ↦ rw e refl
  ]

  -- The tier that a path is recorded with.
  pub record_signed-tier :
      (info : PathInfo) (object : RemoteObject) (tier : Tier) (s : MemoryStore)
      → Sharing.tier conn.tenant info.path (record_signed out conn info object tier s) ≡ some tier
  unfolding record_signed Sharing.tier put_path
  record_signed-tier info object tier s =
      let (s', signed) = sign_if_vouchable out conn info tier s in
      let same : signed.path ≡ info.path = sign_if_vouchable-path info tier s in
      ap (λ inner. Map.get info.path inner.tiers)
        (record_path_self conn.tenant signed object tier s')
      ∙ ap (λ p. Map.get p (Map.insert signed.path tier (partition conn.tenant s').tiers))
          (sym same)
      ∙ get-insert_self signed.path tier (partition conn.tenant s').tiers

  -- The signing key of the tenant does not touch the tiers.
  signer-tiers :
      (s : MemoryStore)
      → (partition conn.tenant (signer out.seed conn.tenant s).0).tiers
        ≡ (partition conn.tenant s).tiers
  unfolding step effect give_signer
  signer-tiers s =
      ap (λ inner. inner.tiers) (step_own (signer_op out.seed conn.tenant) conn.tenant s refl)
      ∙ give_found-tiers out.seed conn.tenant (partition conn.tenant s).signer
          (partition conn.tenant s)

  sign_with-tiers :
      (info : PathInfo) (s : MemoryStore) (x : MemoryStore × Option LocalSigner)
      → (partition conn.tenant x.0).tiers ≡ (partition conn.tenant s).tiers
      → (partition conn.tenant (sign_with out conn info x).0).tiers
        ≡ (partition conn.tenant s).tiers
  unfolding sign_with
  sign_with-tiers info s (s', none) h = h
  sign_with-tiers info s (s', some key) h = h

  sign_if_vouchable-tiers :
      (info : PathInfo) (tier : Tier) (s : MemoryStore)
      → (partition conn.tenant (sign_if_vouchable out conn info tier s).0).tiers
        ≡ (partition conn.tenant s).tiers
  unfolding sign_if_vouchable
  sign_if_vouchable-tiers info tier s = elim (Bool-cases (is_vouchable tier)) [
    | inl e ↦ rw e (sign_with-tiers info s (signer out.seed conn.tenant s) (signer-tiers s))
    | inr e ↦ rw e refl
  ]

  -- A path keeps its tier when a path is recorded with that tier.
  pub record_signed-keeps_tier :
      (info : PathInfo) (object : RemoteObject) (tier : Tier) (s : MemoryStore) (path : StorePath)
      → Sharing.tier conn.tenant path s ≡ some tier
      → Sharing.tier conn.tenant path (record_signed out conn info object tier s) ≡ some tier
  unfolding record_signed Sharing.tier put_path
  record_signed-keeps_tier info object tier s path h =
      let (s', signed) = sign_if_vouchable out conn info tier s in
      let old : Map.get path (partition conn.tenant s').tiers ≡ some tier =
        ap (Map.get path) (sign_if_vouchable-tiers info tier s) ∙ h in
      ap (λ inner. Map.get path inner.tiers) (record_path_self conn.tenant signed object tier s')
      ∙ get-insert signed.path path tier (partition conn.tenant s').tiers
      ∙ if-both (λ x. x ≡ some tier) (signed.path == path) refl old
