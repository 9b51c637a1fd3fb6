-- ===== src/VmPool.antt =====
-- `VmPool` of crates/worker/src/vm.rs: the one warm VM of a worker, the key of each tenant's disk, and
-- the uids. The launcher, the disk and the random numbers are outside of the pool: each request is
-- given what they answer (`Replies`), and `calls` keeps what the launcher was asked, newest first.
-- A path is the list of its components.
pub mod Calls
pub mod Running
pub mod Owned
pub mod StoreKeys
pub mod Tenancy
use kubernix.Prelude.{
  ℕ, ◌≡◌, ◌∷◌, ◌++◌, [], Option, none, some, Bool, true, false, List, Bytes, codes, ◌&&◌, not,
  if◌then◌else◌,
}
use kubernix.Prelude.Eq.{Eq, ◌==◌}
use kubernix.Prelude.Map
use kubernix.Prelude.Map.{Map}
use kubernix.Prelude.Outcome.{Outcome, ok, err, panic}
use kubernix.TenantId.{TenantId, tenant_id_eq}
use kubernix.Uid
use kubernix.Uid.{UidAllocator, UidError}

abbrev pub PathBuf : Type 0
PathBuf = List Bytes

-- `path.join(component)`
abbrev pub join : PathBuf → Bytes → PathBuf
join path component = path ++ (component ∷ [])

abbrev pub nix_daemon_port : ℕ
nix_daemon_port = 620

-- `StoreKey`, an array of 32 bytes.
abbrev pub StoreKey : Type 0
StoreKey = Bytes

pub record VmConfig : Type 0 where
  pub state_dir : PathBuf

unfoldable pub tenant_dir : VmConfig → TenantId → PathBuf
tenant_dir config tenant = join (join config.state_dir (codes "tenants")) tenant.as_str

unfoldable pub store_img_path : VmConfig → TenantId → PathBuf
store_img_path config tenant =
    join (join (join config.state_dir (codes "tenants")) tenant.as_str) (codes "store.img")

unfoldable pub vsock_path : VmConfig → TenantId → PathBuf
unfolding tenant_dir
vsock_path config tenant = join (tenant_dir config tenant) (codes "vsock.sock")

unfoldable pub console_path : VmConfig → TenantId → PathBuf
unfolding tenant_dir
console_path config tenant = join (tenant_dir config tenant) (codes "console.log")

-- The child processes by their pids.
pub record LaunchedVm : Type 0 where
  pub child : ℕ
  pub passt_child : Option ℕ
  pub vsock_socket : PathBuf
  pub console_log : PathBuf

pub record VmHandle : Type 0 where
  pub tenant : TenantId
  pub vsock_socket : PathBuf
  pub guest_port : ℕ
  pub store_img : PathBuf
  pub fresh : Bool

pub record WarmVm : Type 0 where
  pub tenant : TenantId
  pub vm : LaunchedVm

-- The arguments of `VmLauncher::boot`; the gid is the number of the uid.
pub record Boot : Type 0 where
  pub tenant : TenantId
  pub store_img : PathBuf
  pub vsock_socket : PathBuf
  pub console_log : PathBuf
  pub uid : ℕ
  pub fresh : Bool

-- The calls of a launcher. `boots` is followed by `booted` when the call has returned a VM.
pub data Call : Type 0 where
  boots : Boot → Call
  booted : LaunchedVm → Call
  stops : LaunchedVm → Call
  pushes_key : TenantId → PathBuf → StoreKey → Bool → Call

pub data VmError : Type 0 where
  io : Bytes → VmError
  no_uid : UidError → VmError
  launch : Bytes → VmError

-- A `Result` of the outside.
pub data Answer (A : Type 0) : Type 0 where
  answers : A → Answer A
  fails : VmError → Answer A

-- What the outside answers to a request: whether the warm VM's process still runs, `tenants/<T>` can
-- be prepared, `store.img` exists, what `boot` returns, the random bytes, how `push_key` goes; and
-- for a wipe, whether `store.img` can be removed.
pub record Replies : Type 0 where
  pub alive : Bool
  pub prepared : Answer Unit
  pub img_exists : Bool
  pub boot : Answer LaunchedVm
  pub fill_bytes : StoreKey
  pub push_key : Answer Unit
  pub removed : Answer Unit

pub record VmPool : Type 0 where
  pub config : VmConfig
  pub warm : Option WarmVm
  pub keys : Map TenantId StoreKey
  pub uids : UidAllocator
  pub calls : List Call

unfoldable pub with_uids : VmConfig → Outcome UidError UidAllocator → Outcome UidError VmPool
with_uids config (ok uids) =
    ok (record { config = config; warm = none; keys = []; uids = uids; calls = [] })
with_uids config (err e) = err e
with_uids config panic = panic

unfoldable pub new : VmConfig → Option ℕ → Outcome UidError VmPool
unfolding with_uids Uid.new
new config bound = with_uids config (Uid.new bound)

unfoldable pub evict_vm : Option WarmVm → VmPool → VmPool
evict_vm none p = p
evict_vm (some w) p = record p { warm = none; calls = stops w.vm ∷ p.calls }

unfoldable pub evict : VmPool → VmPool
unfolding evict_vm
evict p = evict_vm p.warm p

-- The key of the tenant: the one that it has, or the new one.
unfoldable pub key_or : StoreKey → Option StoreKey → StoreKey
key_or new none = new
key_or new (some key) = key

-- The end of `ensure_vm_for`, on what `push_key` returned.
unfoldable pub after_push :
    TenantId → Bool → LaunchedVm → Answer Unit → VmPool → VmPool × Outcome VmError VmHandle
unfolding vsock_path store_img_path
after_push t fresh vm (answers _) p = (
  record p { warm = some (record { tenant = t; vm = vm }) },
  ok (record {
    tenant = t;
    vsock_socket = vsock_path p.config t;
    guest_port = nix_daemon_port;
    store_img = store_img_path p.config t;
    fresh = fresh;
  }),
)
after_push t fresh vm (fails e) p = (record p { calls = stops vm ∷ p.calls }, err e)

-- The part from `boot`'s answer on.
unfoldable pub after_boot :
    Replies → TenantId → Bool → Answer LaunchedVm → VmPool → VmPool × Outcome VmError VmHandle
unfolding key_or vsock_path Map.or_insert
after_boot r t fresh (answers vm) p =
    let key = key_or r.fill_bytes (Map.get t p.keys) in
    after_push t fresh vm r.push_key (record p {
      keys = Map.or_insert t r.fill_bytes p.keys;
      calls = pushes_key t (vsock_path p.config t) key fresh ∷ booted vm ∷ p.calls;
    })
after_boot r t fresh (fails e) p = (p, err e)

-- The part from the answer of the uid allocator on.
unfoldable pub after_allocate :
    Replies
    → TenantId
    → Outcome UidError (ℕ × UidAllocator)
    → VmPool
    → VmPool × Outcome VmError VmHandle
unfolding vsock_path store_img_path console_path
after_allocate r t (ok (uid, uids)) p =
    let fresh = not r.img_exists in
    let request : Boot = record {
      tenant = t;
      store_img = store_img_path p.config t;
      vsock_socket = vsock_path p.config t;
      console_log = console_path p.config t;
      uid = uid;
      fresh = fresh;
    } in
    after_boot r t fresh r.boot (record p { uids = uids; calls = boots request ∷ p.calls })
after_allocate r t (err e) p = (p, err (no_uid e))
after_allocate r t panic p = (p, panic)

-- The part from the answer of `prepare_tenant_dir` on.
unfoldable pub after_prepare :
    Replies → TenantId → Answer Unit → VmPool → VmPool × Outcome VmError VmHandle
unfolding Uid.allocate
after_prepare r t (answers _) p = after_allocate r t (Uid.allocate t p.uids) p
after_prepare r t (fails e) p = (p, err e)

-- The start of `ensure_vm_for`, on the warm VM, if there is one.
unfoldable pub ensure_on :
    Replies → TenantId → Option WarmVm → VmPool → VmPool × Outcome VmError VmHandle
unfolding evict evict_vm store_img_path
ensure_on r t none p = after_prepare r t r.prepared p
ensure_on r t (some w) p =
    if (w.tenant == t) && r.alive
    then (
      p,
      ok (record {
        tenant = t;
        vsock_socket = w.vm.vsock_socket;
        guest_port = nix_daemon_port;
        store_img = store_img_path p.config t;
        fresh = false;
      }),
    )
    else after_prepare r t r.prepared (evict p)

unfoldable pub ensure_vm_for : Replies → TenantId → VmPool → VmPool × Outcome VmError VmHandle
unfolding ensure_on
ensure_vm_for r t p = ensure_on r t p.warm p

unfoldable pub after_wipe :
    Replies → TenantId → Answer Unit → VmPool → VmPool × Outcome VmError VmHandle
unfolding ensure_vm_for
after_wipe r t (answers _) p = ensure_vm_for r t p
after_wipe r t (fails e) p = (p, err e)

unfoldable pub wipe_and_reboot : Replies → TenantId → VmPool → VmPool × Outcome VmError VmHandle
unfolding evict evict_vm after_wipe
wipe_and_reboot r t p = after_wipe r t r.removed (evict p)

-- The requests of a worker's jobs, one after the other.
pub data Request : Type 0 where
  ensures : TenantId → Replies → Request
  wipes : TenantId → Replies → Request

unfoldable pub step : Request → VmPool → VmPool × Outcome VmError VmHandle
unfolding ensure_vm_for wipe_and_reboot
step (ensures t r) p = ensure_vm_for r t p
step (wipes t r) p = wipe_and_reboot r t p

unfoldable pub serve : List Request → VmPool → VmPool
unfolding step
serve [] p = p
serve (request ∷ rest) p = serve rest (step request p).0
