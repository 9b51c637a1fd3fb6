-- ===== src/VmPool/Running.antt =====
-- No VM of a pool (crates/worker/src/vm.rs) is left running but the warm one.
use kubernix.Prelude.{
  ℕ, ◌≡◌, ◌∷◌, [], Option, none, some, Bool, List, arith, inl, inr, subst, refl, ap, ◌∙◌, sym,
  Bool-cases, ◌&&◌,
}
use kubernix.Prelude.Eq.{◌==◌}
use kubernix.Prelude.Outcome.{Outcome, ok, err, panic, ok-injective}
use kubernix.TenantId.{TenantId, tenant_id_eq}
use kubernix.Uid
use kubernix.Uid.{UidAllocator, UidError}
use kubernix.VmPool.{
  VmConfig, LaunchedVm, WarmVm, Answer, answers, fails, Replies, VmPool, new, with_uids, evict_vm,
  evict, after_push, after_boot, after_allocate, after_prepare, ensure_on, ensure_vm_for,
  after_wipe, wipe_and_reboot, Request, ensures, wipes, step, serve,
}
use kubernix.VmPool.Calls.{remove_child, running, warm_vms, RunsWarmOnly}

-- No VM is warm and none runs.
record IsIdle (p : VmPool) : Type 0 where
  pub cold : p.warm ≡ none
  pub still : running p.calls ≡ []

remove_child_self : (v : LaunchedVm) → remove_child v (v ∷ []) ≡ []
remove_child_self v = ground arith

evict_vm-IsIdle :
    (w : Option WarmVm) (p : VmPool) → p.warm ≡ w → RunsWarmOnly p → IsIdle (evict_vm w p)
unfolding evict_vm RunsWarmOnly
evict_vm-IsIdle none p e h = record { cold = e; still = h ∙ ap warm_vms e }
evict_vm-IsIdle (some w) p e h = record {
  cold = refl;
  still = rw (h ∙ ap warm_vms e) (remove_child_self w.vm);
}

evict-IsIdle : (p : VmPool) → RunsWarmOnly p → IsIdle (evict p)
unfolding evict
evict-IsIdle p h = evict_vm-IsIdle p.warm p refl h

IsIdle→RunsWarmOnly : (p : VmPool) → IsIdle p → RunsWarmOnly p
unfolding RunsWarmOnly
IsIdle→RunsWarmOnly p i = i.still ∙ sym (ap warm_vms i.cold)

after_push_lem :
    (t : TenantId) (fresh : Bool) (vm : LaunchedVm) (a : Answer Unit) (p : VmPool)
    → p.warm ≡ none
    → running p.calls ≡ vm ∷ []
    → RunsWarmOnly (after_push t fresh vm a p).0
unfolding after_push RunsWarmOnly
after_push_lem t fresh vm (answers _) p cold one = one
after_push_lem t fresh vm (fails e) p cold one =
    rw one (remove_child_self vm) ∙ sym (ap warm_vms cold)

after_boot_lem :
    (r : Replies) (t : TenantId) (fresh : Bool) (a : Answer LaunchedVm) (p : VmPool)
    → IsIdle p
    → RunsWarmOnly (after_boot r t fresh a p).0
unfolding after_boot
after_boot_lem r t fresh (answers vm) p i =
    after_push_lem t fresh vm r.push_key _ i.cold (ap (λ l. vm ∷ l) i.still)
after_boot_lem r t fresh (fails e) p i = IsIdle→RunsWarmOnly p i

after_allocate_lem :
    (r : Replies) (t : TenantId) (a : Outcome UidError (ℕ × UidAllocator)) (p : VmPool)
    → IsIdle p
    → RunsWarmOnly (after_allocate r t a p).0
unfolding after_allocate
after_allocate_lem r t (ok (uid, uids)) p i =
    after_boot_lem r t _ r.boot _ (record { cold = i.cold; still = i.still })
after_allocate_lem r t (err e) p i = IsIdle→RunsWarmOnly p i
after_allocate_lem r t panic p i = IsIdle→RunsWarmOnly p i

after_prepare_lem :
    (r : Replies) (t : TenantId) (a : Answer Unit) (p : VmPool)
    → IsIdle p
    → RunsWarmOnly (after_prepare r t a p).0
unfolding after_prepare
after_prepare_lem r t (answers _) p i = after_allocate_lem r t (Uid.allocate t p.uids) p i
after_prepare_lem r t (fails e) p i = IsIdle→RunsWarmOnly p i

ensure_on_lem :
    (r : Replies) (t : TenantId) (w : Option WarmVm) (p : VmPool)
    → p.warm ≡ w
    → RunsWarmOnly p
    → RunsWarmOnly (ensure_on r t w p).0
unfolding ensure_on
ensure_on_lem r t none p e h =
    after_prepare_lem r t r.prepared p (unfold evict_vm in evict_vm-IsIdle none p e h)
ensure_on_lem r t (some w) p e h = elim (Bool-cases ((w.tenant == t) && r.alive)) [
  | inl same ↦ rw same h
  | inr other ↦ rw other (after_prepare_lem r t r.prepared (evict p) (evict-IsIdle p h))
]

after_wipe_lem :
    (r : Replies) (t : TenantId) (a : Answer Unit) (p : VmPool)
    → RunsWarmOnly p
    → RunsWarmOnly (after_wipe r t a p).0
unfolding after_wipe ensure_vm_for
after_wipe_lem r t (answers _) p h = ensure_on_lem r t p.warm p refl h
after_wipe_lem r t (fails e) p h = h

step_lem : (request : Request) (p : VmPool) → RunsWarmOnly p → RunsWarmOnly (step request p).0
unfolding step ensure_vm_for wipe_and_reboot
step_lem (ensures t r) p h = ensure_on_lem r t p.warm p refl h
step_lem (wipes t r) p h =
    after_wipe_lem r t r.removed (evict p) (IsIdle→RunsWarmOnly (evict p) (evict-IsIdle p h))

serve-RunsWarmOnly :
    (requests : List Request) (p : VmPool) → RunsWarmOnly p → RunsWarmOnly (serve requests p)
unfolding serve
serve-RunsWarmOnly [] p h = h
serve-RunsWarmOnly (request ∷ rest) p h =
    serve-RunsWarmOnly rest (step request p).0 (step_lem request p h)

with_uids-RunsWarmOnly :
    (config : VmConfig) (made : Outcome UidError UidAllocator) (p : VmPool)
    → with_uids config made ≡ ok p
    → RunsWarmOnly p
unfolding with_uids RunsWarmOnly
with_uids-RunsWarmOnly config (ok uids) p h = subst RunsWarmOnly (ok-injective h) refl
with_uids-RunsWarmOnly config (err e) p h = cc
with_uids-RunsWarmOnly config panic p h = cc

-- After any requests to a new pool, whatever the launcher, the disk and the allocator answer to them,
-- the VMs that were booted and not stopped are the warm one, if there is one, and no other.
pub warm_vm_runs_alone :
    (config : VmConfig) (bound : Option ℕ) (p : VmPool) (requests : List Request)
    → new config bound ≡ ok p
    → running (serve requests p).calls ≡ warm_vms (serve requests p).warm
unfolding new RunsWarmOnly
warm_vm_runs_alone config bound p requests h =
    serve-RunsWarmOnly requests p (with_uids-RunsWarmOnly config (Uid.new bound) p h)
