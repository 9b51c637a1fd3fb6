-- ===== src/Examples/Pools.antt =====
-- A pool of VMs (crates/worker/src/vm.rs).
use kubernix.Prelude.{[], ◌∷◌, codes, refl, none, some, true, false, List, ◌≡◌, inl, inr, In}
use kubernix.Prelude.Map
use kubernix.Prelude.Outcome.{ok}
use kubernix.Uid
use kubernix.VmPool.{
  PathBuf, VmConfig, Boot, boots, pushes_key, answers, Replies, VmPool, new, with_uids,
  store_img_path, tenant_dir, vsock_path, console_path, evict_vm, evict, key_or, after_push,
  after_boot, after_allocate, after_prepare, ensure_on, ensure_vm_for, after_wipe, wipe_and_reboot,
  Request, ensures, wipes, step, serve,
}
use kubernix.VmPool.Calls.{running, warm_vms}
use kubernix.VmPool.Running.{warm_vm_runs_alone}
use kubernix.VmPool.StoreKeys.{one_key_per_tenant, boots_apart}
use kubernix.VmPool.Tenancy.{ServedStep, handle_of_tenant}
use kubernix.TenantId.{TenantId}
use kubernix.Examples.Data.{acme, beta}

abbrev config : VmConfig
config = record { state_dir = codes "state" ∷ [] }

abbrev socket_of : TenantId → PathBuf
socket_of t = codes "state" ∷ (codes "tenants" ∷ (t.as_str ∷ (codes "vsock.sock" ∷ [])))

-- Everything goes well, and the VM listens where it was told to.
abbrev good : TenantId → Replies
good t = record {
  alive = true;
  prepared = answers tt;
  img_exists = false;
  boot =
      answers
        (record { child = 7; passt_child = none; vsock_socket = socket_of t; console_log = [] });
  fill_bytes = codes "key";
  push_key = answers tt;
  removed = answers tt;
}

abbrev start : VmPool
start = record {
  config = config;
  warm = none;
  keys = [];
  uids = record { ceiling = 3000; next = 2000; free = []; assigned = [] };
  calls = [];
}

started : new config (some 3000) ≡ ok start
unfolding new with_uids Uid.new
started = refl

abbrev requests : List Request
requests = ensures acme (good acme) ∷ (wipes acme (good acme) ∷ [])

warm_vm_runs_alone_example :
    running (serve requests start).calls ≡ warm_vms (serve requests start).warm
warm_vm_runs_alone_example = warm_vm_runs_alone config (some 3000) start requests started

pushed : In (pushes_key acme (socket_of acme) (codes "key") true) (serve requests start).calls
unfolding serve step ensure_vm_for wipe_and_reboot ensure_on after_wipe evict evict_vm after_prepare
    after_allocate after_boot after_push key_or tenant_dir vsock_path store_img_path console_path
    Map.get Map.insert Map.or_insert Uid.allocate Uid.allocate_for Uid.fresh Uid.fresh_from
    Uid.assign
pushed = inl refl

one_key_per_tenant_example : codes "key" ≡ codes "key"
one_key_per_tenant_example =
    one_key_per_tenant config (some 3000) start requests started acme (socket_of acme)
      (socket_of acme) (codes "key") (codes "key") true true pushed pushed

abbrev first_boot : Boot
first_boot = record {
  tenant = acme;
  store_img = codes "state" ∷ (codes "tenants" ∷ (codes "acme" ∷ (codes "store.img" ∷ [])));
  vsock_socket = socket_of acme;
  console_log = codes "state" ∷ (codes "tenants" ∷ (codes "acme" ∷ (codes "console.log" ∷ [])));
  uid = 2000;
  fresh = true;
}

was_booted : In (boots first_boot) (serve requests start).calls
unfolding serve step ensure_vm_for wipe_and_reboot ensure_on after_wipe evict evict_vm after_prepare
    after_allocate after_boot after_push key_or tenant_dir vsock_path store_img_path console_path
    Map.get Map.insert Map.or_insert Uid.allocate Uid.allocate_for Uid.fresh Uid.fresh_from
    Uid.assign
was_booted = inr (inr (inl refl))

boots_apart_example : acme ≡ acme
boots_apart_example =
    boots_apart config (some 3000) start requests started first_boot first_boot was_booted
      was_booted (inl refl)

handle_of_tenant_example :
    ServedStep config
      (ensures beta (good beta))
      (step (ensures beta (good beta)) (serve requests start))
unfolding vsock_path tenant_dir
handle_of_tenant_example =
    handle_of_tenant config (some 3000) start requests (ensures beta (good beta)) started
      (refl, (refl, tt)) refl
