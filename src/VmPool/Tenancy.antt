-- ===== src/VmPool/Tenancy.antt =====
-- The handle that a request gets from a pool (crates/worker/src/vm.rs) leads to its tenant's own VM.
use kubernix.Prelude.{
  ℕ, ◌≡◌, ◌∷◌, [], Option, none, some, Bool, true, false, List, inl, inr, refl, ap, ◌∙◌, sym, subst,
  Bool-cases, ◌&&◌, not, &&-eq-true,
}
use kubernix.Prelude.Eq.{◌==◌, ==→eq}
use kubernix.Prelude.Outcome.{Outcome, ok, err, panic, ok-injective}
use kubernix.TenantId.{TenantId, tenant_id_eq}
use kubernix.Uid
use kubernix.Uid.{UidAllocator, UidError}
use kubernix.VmPool.{
  VmConfig, LaunchedVm, WarmVm, VmError, Answer, answers, fails, Replies, VmPool, VmHandle, new,
  with_uids, store_img_path, vsock_path, evict_vm, evict, after_push, after_boot, after_allocate,
  after_prepare, ensure_on, ensure_vm_for, after_wipe, wipe_and_reboot, Request, ensures, wipes,
  step, serve,
}

-- The VM listens on the socket of its tenant.
abbrev pub WarmOf : VmConfig → Option WarmVm → Type 0
WarmOf c none = Unit
WarmOf c (some w) = w.vm.vsock_socket ≡ vsock_path c w.tenant

unfoldable pub IsTenanted : VmConfig → VmPool → Type 0
IsTenanted c p = (p.config ≡ c) × WarmOf c p.warm

-- The VM that `boot` returns listens on the socket it was asked to listen on.
abbrev pub Listens : VmConfig → TenantId → Answer LaunchedVm → Type 0
Listens c t (answers vm) = vm.vsock_socket ≡ vsock_path c t
Listens c t (fails e) = Unit

abbrev pub RequestListens : VmConfig → Request → Type 0
RequestListens c (ensures t r) = Listens c t r.boot
RequestListens c (wipes t r) = Listens c t r.boot

abbrev pub AllListen : VmConfig → List Request → Type 0
AllListen c [] = Unit
AllListen c (request ∷ rest) = RequestListens c request × AllListen c rest

-- The handle `h` is for the tenant `t`, whose VM is warm in the pool `q`.
pub record IsFor (c : VmConfig) (r : Replies) (t : TenantId) (q : VmPool) (h : VmHandle)
    : Type 0 where
  pub config : q.config ≡ c
  pub warm :
      (w : WarmVm) × (q.warm ≡ some w) × (w.tenant ≡ t) × (w.vm.vsock_socket ≡ vsock_path c t)
  pub tenant : h.tenant ≡ t
  pub socket : h.vsock_socket ≡ vsock_path c t
  pub img : h.store_img ≡ store_img_path c t
  pub fresh : h.fresh ≡ true → r.img_exists ≡ false

-- A request that returns a handle returns one for its tenant, and one that fails leaves no warm VM.
abbrev pub Served : VmConfig → Replies → TenantId → VmPool × Outcome VmError VmHandle → Type 0
Served c r t (q, ok h) = IsFor c r t q h
Served c r t (q, err e) = (q.config ≡ c) × (q.warm ≡ none)
Served c r t (q, panic) = (q.config ≡ c) × (q.warm ≡ none)

-- Nothing is warm.
abbrev IsCold : VmConfig → VmPool → Type 0
IsCold c p = (p.config ≡ c) × (p.warm ≡ none)

evict_vm-IsCold :
    (c : VmConfig) (w : Option WarmVm) (p : VmPool)
    → p.config ≡ c
    → p.warm ≡ w
    → IsCold c (evict_vm w p)
unfolding evict_vm
evict_vm-IsCold c none p e h = (e, h)
evict_vm-IsCold c (some w) p e h = (e, refl)

after_push_lem :
    (c : VmConfig) (r : Replies) (t : TenantId) (fresh : Bool) (vm : LaunchedVm) (a : Answer Unit)
    (p : VmPool)
    → IsCold c p
    → vm.vsock_socket ≡ vsock_path c t
    → (fresh ≡ true → r.img_exists ≡ false)
    → Served c r t (after_push t fresh vm a p)
unfolding after_push
after_push_lem c r t fresh vm (answers _) p (e, cold) listens f = record {
  config = e;
  warm = (record { tenant = t; vm = vm }, refl, refl, listens);
  tenant = refl;
  socket = ap (λ d. vsock_path d t) e;
  img = ap (λ d. store_img_path d t) e;
  fresh = f;
}
after_push_lem c r t fresh vm (fails x) p cold listens f = cold

after_boot_lem :
    (c : VmConfig) (r : Replies) (t : TenantId) (fresh : Bool) (a : Answer LaunchedVm) (p : VmPool)
    → IsCold c p
    → Listens c t a
    → (fresh ≡ true → r.img_exists ≡ false)
    → Served c r t (after_boot r t fresh a p)
unfolding after_boot
after_boot_lem c r t fresh (answers vm) p cold listens f =
    after_push_lem c r t fresh vm r.push_key _ cold listens f
after_boot_lem c r t fresh (fails e) p cold listens f = cold

not-true : (b : Bool) → not b ≡ true → b ≡ false
not-true true h = cc
not-true false h = refl

after_allocate_lem :
    (c : VmConfig) (r : Replies) (t : TenantId) (a : Outcome UidError (ℕ × UidAllocator))
    (p : VmPool)
    → IsCold c p
    → Listens c t r.boot
    → Served c r t (after_allocate r t a p)
unfolding after_allocate
after_allocate_lem c r t (ok (uid, uids)) p cold listens =
    after_boot_lem c r t _ r.boot _ cold listens (not-true r.img_exists)
after_allocate_lem c r t (err e) p cold listens = cold
after_allocate_lem c r t panic p cold listens = cold

after_prepare_lem :
    (c : VmConfig) (r : Replies) (t : TenantId) (a : Answer Unit) (p : VmPool)
    → IsCold c p
    → Listens c t r.boot
    → Served c r t (after_prepare r t a p)
unfolding after_prepare
after_prepare_lem c r t (answers _) p cold listens =
    after_allocate_lem c r t (Uid.allocate t p.uids) p cold listens
after_prepare_lem c r t (fails e) p cold listens = cold

ensure_on_lem :
    (c : VmConfig) (r : Replies) (t : TenantId) (w : Option WarmVm) (p : VmPool)
    → p.warm ≡ w
    → IsTenanted c p
    → Listens c t r.boot
    → Served c r t (ensure_on r t w p)
unfolding ensure_on IsTenanted
ensure_on_lem c r t none p e h listens = after_prepare_lem c r t r.prepared p (h.0, e) listens
ensure_on_lem c r t (some w) p e h listens = elim (Bool-cases ((w.tenant == t) && r.alive)) [
  | inl same ↦
      let mine : w.tenant ≡ t = ==→eq w.tenant t (&&-eq-true (w.tenant == t) r.alive same).0 in
      let socket : w.vm.vsock_socket ≡ vsock_path c t =
        subst (WarmOf c) e h.1 ∙ ap (vsock_path c) mine in
      rw same (record {
        config = h.0;
        warm = (w, e, mine, socket);
        tenant = refl;
        socket = socket;
        img = ap (λ d. store_img_path d t) h.0;
        fresh = λ f. cc;
      })
  | inr other ↦ rw other (
      after_prepare_lem c r t r.prepared (evict p)
        (unfold evict in evict_vm-IsCold c p.warm p h.0 refl) listens)
]

ensure_vm_for_lem :
    (c : VmConfig) (r : Replies) (t : TenantId) (p : VmPool)
    → IsTenanted c p
    → Listens c t r.boot
    → Served c r t (ensure_vm_for r t p)
unfolding ensure_vm_for
ensure_vm_for_lem c r t p h listens = ensure_on_lem c r t p.warm p refl h listens

after_wipe_lem :
    (c : VmConfig) (r : Replies) (t : TenantId) (a : Answer Unit) (p : VmPool)
    → IsCold c p
    → Listens c t r.boot
    → Served c r t (after_wipe r t a p)
unfolding after_wipe IsTenanted
after_wipe_lem c r t (answers _) p cold listens =
    ensure_vm_for_lem c r t p (cold.0, subst (WarmOf c) (sym cold.1) tt) listens
after_wipe_lem c r t (fails e) p cold listens = cold

abbrev pub ServedStep : VmConfig → Request → VmPool × Outcome VmError VmHandle → Type 0
ServedStep c (ensures t r) = Served c r t
ServedStep c (wipes t r) = Served c r t

step_lem :
    (c : VmConfig) (request : Request) (p : VmPool)
    → IsTenanted c p
    → RequestListens c request
    → ServedStep c request (step request p)
unfolding step wipe_and_reboot evict IsTenanted
step_lem c (ensures t r) p h listens = ensure_vm_for_lem c r t p h listens
step_lem c (wipes t r) p h listens =
    after_wipe_lem c r t r.removed (evict p) (evict_vm-IsCold c p.warm p h.0 refl) listens

Served-IsTenanted :
    (c : VmConfig) (r : Replies) (t : TenantId) (x : VmPool × Outcome VmError VmHandle)
    → Served c r t x
    → IsTenanted c x.0
unfolding IsTenanted
Served-IsTenanted c r t (q, ok h) s =
    let (w, e, mine, socket) = s.warm in
    (s.config, subst (WarmOf c) (sym e) (socket ∙ ap (vsock_path c) (sym mine)))
Served-IsTenanted c r t (q, err e) s = (s.0, subst (WarmOf c) (sym s.1) tt)
Served-IsTenanted c r t (q, panic) s = (s.0, subst (WarmOf c) (sym s.1) tt)

step-IsTenanted :
    (c : VmConfig) (request : Request) (p : VmPool)
    → IsTenanted c p
    → RequestListens c request
    → IsTenanted c (step request p).0
step-IsTenanted c (ensures t r) p h l = Served-IsTenanted c r t _ (step_lem c (ensures t r) p h l)
step-IsTenanted c (wipes t r) p h l = Served-IsTenanted c r t _ (step_lem c (wipes t r) p h l)

serve-IsTenanted :
    (c : VmConfig) (requests : List Request) (p : VmPool)
    → IsTenanted c p
    → AllListen c requests
    → IsTenanted c (serve requests p)
unfolding serve
serve-IsTenanted c [] p h l = h
serve-IsTenanted c (request ∷ rest) p h l =
    serve-IsTenanted c rest (step request p).0 (step-IsTenanted c request p h l.0) l.1

with_uids-IsTenanted :
    (c : VmConfig) (made : Outcome UidError UidAllocator) (p : VmPool)
    → with_uids c made ≡ ok p
    → IsTenanted c p
unfolding with_uids IsTenanted
with_uids-IsTenanted c (ok uids) p h = subst (IsTenanted c) (ok-injective h) (refl, tt)
with_uids-IsTenanted c (err e) p h = cc
with_uids-IsTenanted c panic p h = cc

-- If every VM that is booted listens on the socket it was asked to, then after any requests to a new
-- pool a request that returns a handle returns the disk and the socket of its own tenant, whose VM is
-- then the warm one, marked as fresh only if there was no disk; and one that fails leaves no warm VM.
pub handle_of_tenant :
    (c : VmConfig) (bound : Option ℕ) (p : VmPool) (before : List Request) (request : Request)
    → new c bound ≡ ok p
    → AllListen c before
    → RequestListens c request
    → ServedStep c request (step request (serve before p))
unfolding new
handle_of_tenant c bound p before request made l l' =
    step_lem c request (serve before p)
      (serve-IsTenanted c before p (with_uids-IsTenanted c (Uid.new bound) p made) l) l'
