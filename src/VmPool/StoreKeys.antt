-- ===== src/VmPool/StoreKeys.antt =====
-- What a tenant's VMs are booted with (crates/worker/src/vm.rs): its own disk, socket, uid and key.
use kubernix.Prelude.{
  ℕ, ◌≡◌, ◌⊎◌, some-injective, In-All, ◌∷◌, [], Option, none, some, Bool, List, inl, inr, refl, ap,
  ◌∙◌, sym, subst, Bool-cases, ◌&&◌, In,
}
use kubernix.Prelude.Eq.{◌==◌}
use kubernix.Prelude.Outcome.{Outcome, ok, err, panic, ok-injective}
use kubernix.TenantId.{TenantId, tenant_id_eq}
use kubernix.Uid
use kubernix.Uid.{UidAllocator, UidError, allocate_for}
use kubernix.Uid.Invariant.{IsValid, new-IsValid}
use kubernix.VmPool.{
  PathBuf, StoreKey, VmConfig, LaunchedVm, WarmVm, Boot, Call, boots, pushes_key, Answer, answers,
  fails, Replies, VmPool, new, with_uids, evict_vm, evict, after_push, after_boot, after_allocate,
  after_prepare, ensure_on, ensure_vm_for, after_wipe, wipe_and_reboot, Request, ensures, wipes,
  step, serve,
}
use kubernix.VmPool.Owned.{
  store_img_path-injective, Owned, IsOwned, keyed-IsOwned, allocated-IsOwned, stopped-IsOwned,
}

after_push_lem :
    (t : TenantId) (fresh : Bool) (vm : LaunchedVm) (a : Answer Unit) (p : VmPool)
    → IsOwned p
    → IsOwned (after_push t fresh vm a p).0
unfolding after_push
after_push_lem t fresh vm (answers _) p o = record { valid = o.valid; owned = o.owned }
after_push_lem t fresh vm (fails e) p o = stopped-IsOwned vm p.warm p o

after_boot_lem :
    (r : Replies) (t : TenantId) (fresh : Bool) (a : Answer LaunchedVm) (p : VmPool)
    → IsOwned p
    → IsOwned (after_boot r t fresh a p).0
unfolding after_boot
after_boot_lem r t fresh (answers vm) p o =
    after_push_lem t fresh vm r.push_key _ (keyed-IsOwned t r.fill_bytes fresh vm p o)
after_boot_lem r t fresh (fails e) p o = o

after_allocate_lem :
    (r : Replies) (t : TenantId) (a : Outcome UidError (ℕ × UidAllocator)) (p : VmPool)
    → Uid.allocate t p.uids ≡ a
    → IsOwned p
    → IsOwned (after_allocate r t a p).0
unfolding after_allocate
after_allocate_lem r t (ok (uid, uids)) p e o =
    after_boot_lem r t _ r.boot _ (allocated-IsOwned t uid uids _ p e (refl, refl) refl refl o)
after_allocate_lem r t (err x) p e o = o
after_allocate_lem r t panic p e o = o

after_prepare_lem :
    (r : Replies) (t : TenantId) (a : Answer Unit) (p : VmPool)
    → IsOwned p
    → IsOwned (after_prepare r t a p).0
unfolding after_prepare
after_prepare_lem r t (answers _) p o = after_allocate_lem r t (Uid.allocate t p.uids) p refl o
after_prepare_lem r t (fails e) p o = o

evict_vm-IsOwned : (w : Option WarmVm) (p : VmPool) → IsOwned p → IsOwned (evict_vm w p)
unfolding evict_vm
evict_vm-IsOwned none p o = o
evict_vm-IsOwned (some w) p o = stopped-IsOwned w.vm none p o

evict-IsOwned : (p : VmPool) → IsOwned p → IsOwned (evict p)
unfolding evict
evict-IsOwned p o = evict_vm-IsOwned p.warm p o

ensure_on_lem :
    (r : Replies) (t : TenantId) (w : Option WarmVm) (p : VmPool)
    → IsOwned p
    → IsOwned (ensure_on r t w p).0
unfolding ensure_on
ensure_on_lem r t none p o = after_prepare_lem r t r.prepared p o
ensure_on_lem r t (some w) p o = elim (Bool-cases ((w.tenant == t) && r.alive)) [
  | inl same ↦ rw same o
  | inr other ↦ rw other (after_prepare_lem r t r.prepared (evict p) (evict-IsOwned p o))
]

after_wipe_lem :
    (r : Replies) (t : TenantId) (a : Answer Unit) (p : VmPool)
    → IsOwned p
    → IsOwned (after_wipe r t a p).0
unfolding after_wipe ensure_vm_for
after_wipe_lem r t (answers _) p o = ensure_on_lem r t p.warm p o
after_wipe_lem r t (fails e) p o = o

step-IsOwned : (request : Request) (p : VmPool) → IsOwned p → IsOwned (step request p).0
unfolding step ensure_vm_for wipe_and_reboot
step-IsOwned (ensures t r) p o = ensure_on_lem r t p.warm p o
step-IsOwned (wipes t r) p o = after_wipe_lem r t r.removed (evict p) (evict-IsOwned p o)

pub serve-IsOwned : (requests : List Request) (p : VmPool) → IsOwned p → IsOwned (serve requests p)
unfolding serve
serve-IsOwned [] p o = o
serve-IsOwned (request ∷ rest) p o =
    serve-IsOwned rest (step request p).0 (step-IsOwned request p o)

with_uids-IsOwned :
    (config : VmConfig) (made : Outcome UidError UidAllocator) (p : VmPool)
    → ((a : UidAllocator) → made ≡ ok a → IsValid a)
    → with_uids config made ≡ ok p
    → IsOwned p
unfolding with_uids
with_uids-IsOwned config (ok uids) p v h =
    subst IsOwned (ok-injective h) (record { valid = v uids refl; owned = tt })
with_uids-IsOwned config (err e) p v h = cc
with_uids-IsOwned config panic p v h = cc

pub new-IsOwned :
    (config : VmConfig) (bound : Option ℕ) (p : VmPool) → new config bound ≡ ok p → IsOwned p
unfolding new
new-IsOwned config bound p h =
    with_uids-IsOwned config (Uid.new bound) p (λ a. new-IsValid bound a) h

module _ (config : VmConfig) (bound : Option ℕ) (p : VmPool) (requests : List Request)
    (made : new config bound ≡ ok p) where
  call_lem :
      (call : Call)
      → In call (serve requests p).calls
      → Owned
          (serve requests p).config
          (serve requests p).keys
          (serve requests p).uids.assigned
          call
  call_lem call m =
      In-All _ (serve requests p).calls call
        (serve-IsOwned requests p (new-IsOwned config bound p made)).owned m

  -- After any requests to a new pool, any two keys pushed for one tenant are the same, so a disk that
  -- is kept is opened with the key that it was made with.
  pub one_key_per_tenant :
      (t : TenantId) (s s' : PathBuf) (key key' : StoreKey) (fresh fresh' : Bool)
      → In (pushes_key t s key fresh) (serve requests p).calls
      → In (pushes_key t s' key' fresh') (serve requests p).calls
      → key ≡ key'
  unfolding Owned
  one_key_per_tenant t s s' key key' fresh fresh' m m' =
      some-injective (sym (call_lem _ m).0 ∙ (call_lem _ m').0)

  -- After any requests to a new pool, two boots that used one uid or one disk were for one tenant.
  pub boots_apart :
      (b c : Boot)
      → In (boots b) (serve requests p).calls
      → In (boots c) (serve requests p).calls
      → (b.uid ≡ c.uid) ⊎ (b.store_img ≡ c.store_img)
      → b.tenant ≡ c.tenant
  unfolding Owned
  boots_apart b c m m' same =
      let (hb, ib, _) = call_lem _ m in
      let (hc, ic, _) = call_lem _ m' in
      elim same [
        | inl e ↦
            (serve-IsOwned requests p (new-IsOwned config bound p made)).valid.used_once b.tenant
              c.tenant c.uid (hb ∙ ap some e) hc
        | inr e ↦ store_img_path-injective _ b.tenant c.tenant (sym ib ∙ e ∙ ic)
      ]
