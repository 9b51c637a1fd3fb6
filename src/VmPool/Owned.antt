-- ===== src/VmPool/Owned.antt =====
-- The calls of a pool (crates/worker/src/vm.rs) use what belongs to their tenant.
use kubernix.Prelude.{
  ℕ, ◌≡◌, ◌∷◌, ◌++◌, [], Option, some, Bool, Bytes, codes, append_assoc, inl, inr, refl, ap, ◌∙◌,
  sym, subst, Option-cases, All, All-map,
}
use kubernix.Prelude.Map
use kubernix.Prelude.Map.{Map, get-or_insert, get-or_insert_new}
use kubernix.Prelude.Outcome.{ok, ok-injective}
use kubernix.TenantId.{TenantId, tenant_id_eq}
use kubernix.Uid
use kubernix.Uid.{UidAllocator, UidError, allocate_for}
use kubernix.Uid.Invariant.{IsValid}
use kubernix.Uid.History.{IsAllocated, AllocatePost, allocate_post}
use kubernix.VmPool.{
  PathBuf, StoreKey, VmConfig, LaunchedVm, WarmVm, Boot, Call, boots, booted, stops, pushes_key,
  VmPool, store_img_path, vsock_path, key_or,
}

-- A call uses what its tenant has in these maps, and the tenant's own paths.
unfoldable pub Owned : VmConfig → Map TenantId StoreKey → Map TenantId ℕ → Call → Type 0
unfolding vsock_path store_img_path
Owned c keys assigned (boots b) =
    (Map.get b.tenant assigned ≡ some b.uid)
    × (b.store_img ≡ store_img_path c b.tenant)
    × (b.vsock_socket ≡ vsock_path c b.tenant)
Owned c keys assigned (pushes_key t socket key fresh) =
    (Map.get t keys ≡ some key) × (socket ≡ vsock_path c t)
Owned c keys assigned (booted v) = Unit
Owned c keys assigned (stops v) = Unit

pub record IsOwned (p : VmPool) : Type 0 where
  pub valid : IsValid p.uids
  pub owned : All (Owned p.config p.keys p.uids.assigned) p.calls

Owned-mono :
    (c : VmConfig) (k k' : Map TenantId StoreKey) (a a' : Map TenantId ℕ)
    → ((t : TenantId) (key : StoreKey) → Map.get t k ≡ some key → Map.get t k' ≡ some key)
    → ((t : TenantId) (uid : ℕ) → Map.get t a ≡ some uid → Map.get t a' ≡ some uid)
    → (call : Call) → Owned c k a call
    → Owned c k' a' call
unfolding Owned
Owned-mono c k k' a a' hk ha (boots b) (h, g, i) = (ha b.tenant b.uid h, g, i)
Owned-mono c k k' a a' hk ha (pushes_key t socket key fresh) h = (hk t key h.0, h.1)
Owned-mono c k k' a a' hk ha (booted v) h = h
Owned-mono c k k' a a' hk ha (stops v) h = h

append-head : (xs : PathBuf) (a b : Bytes) (ys : PathBuf) → xs ++ (a ∷ ys) ≡ xs ++ (b ∷ ys) → a ≡ b
append-head [] a b ys h = cc
append-head (x ∷ xs) a b ys h = append-head xs a b ys (cc h)

-- The disks of two tenants are two.
pub store_img_path-injective :
    (c : VmConfig) (s t : TenantId) → store_img_path c s ≡ store_img_path c t → s ≡ t
unfolding store_img_path
store_img_path-injective c s t h =
    let dir = c.state_dir ++ (codes "tenants" ∷ []) in
    let split = λ (u : TenantId). append_assoc dir (u.as_str ∷ []) (codes "store.img" ∷ []) in
    let names = append-head dir s.as_str t.as_str _ (sym (split s) ∙ h ∙ split t) in
    λ i. record { as_str = names i }

-- An allocation takes no tenant's uid away.
allocate_keeps :
    (t : TenantId) (a b : UidAllocator) (raw : ℕ)
    → IsValid a
    → Uid.allocate t a ≡ ok (raw, b)
    → (s : TenantId) (u : ℕ) → Map.get s a.assigned ≡ some u
    → Map.get s b.assigned ≡ some u
unfolding Uid.allocate allocate_for
allocate_keeps t a b raw v h s u g = elim (Option-cases (Map.get t a.assigned)) [
  | inr (old, e) ↦
      let same : ok (old, a) ≡ ok (raw, b) = rw e at h in
      subst (λ d. Map.get s d.assigned ≡ some u) (ap (λ q. q.1) (ok-injective same)) g
  | inl new_ ↦
      let post : IsAllocated t a raw b = subst (AllocatePost t a) h (allocate_post t a v) in
      post.others s (λ q. cc (ap (λ x. Map.get x a.assigned) q, new_, g)) ∙ g
]

get-key_or :
    (t : TenantId) (fill : StoreKey) (keys : Map TenantId StoreKey)
    → Map.get t (Map.or_insert t fill keys) ≡ some (key_or fill (Map.get t keys))
get-key_or t fill keys = elim (Option-cases (Map.get t keys)) [
  | inr (key, e) ↦ get-or_insert t t fill key keys e ∙ unfold key_or in rw e
  | inl e ↦ get-or_insert_new t fill keys e ∙ unfold key_or in rw e
]

-- The state once `t` has its key, and the key is pushed.
pub keyed-IsOwned :
    (t : TenantId) (fill : StoreKey) (fresh : Bool) (vm : LaunchedVm) (p : VmPool)
    → IsOwned p
    → IsOwned (record p {
      keys = Map.or_insert t fill p.keys;
      calls =
          pushes_key t (vsock_path p.config t) (key_or fill (Map.get t p.keys)) fresh
          ∷ booted vm
          ∷ p.calls;
    })
keyed-IsOwned t fill fresh vm p o = record {
  valid = o.valid;
  owned = (
    unfold Owned in (get-key_or t fill p.keys, refl),
    (
      unfold Owned in tt,
      All-map
          (Owned-mono p.config p.keys _ p.uids.assigned _
            (λ s key. get-or_insert t s fill key p.keys) (λ s uid g. g))
          p.calls o.owned,
    ),
  );
}

-- The state once `t` has its uid, and its VM is booted.
pub allocated-IsOwned :
    (t : TenantId) (uid : ℕ) (uids : UidAllocator) (request : Boot) (p : VmPool)
    → Uid.allocate t p.uids ≡ ok (uid, uids)
    → (request.tenant ≡ t) × (request.uid ≡ uid)
    → request.store_img ≡ store_img_path p.config request.tenant
    → request.vsock_socket ≡ vsock_path p.config request.tenant
    → IsOwned p
    → IsOwned (record p { uids = uids; calls = boots request ∷ p.calls })
allocated-IsOwned t uid uids request p h (et, eu) img socket o =
    let post : IsAllocated t p.uids uid uids =
      subst (AllocatePost t p.uids) h (allocate_post t p.uids o.valid) in
    record {
      valid = post.valid;
      owned = (
        unfold Owned in
            (ap (λ s. Map.get s uids.assigned) et ∙ post.mine ∙ ap some (sym eu), img, socket),
        All-map
            (Owned-mono p.config p.keys _ p.uids.assigned _ (λ s key g. g)
              (allocate_keeps t p.uids uids uid o.valid h))
            p.calls o.owned,
      );
    }

pub stopped-IsOwned :
    (vm : LaunchedVm) (w : Option WarmVm) (p : VmPool)
    → IsOwned p
    → IsOwned (record p { warm = w; calls = stops vm ∷ p.calls })
stopped-IsOwned vm w p o = record { valid = o.valid; owned = (unfold Owned in tt, o.owned) }
