-- ===== src/Examples/Workers.antt =====
-- Uids (crates/worker/src/uid.rs), the retry loop and the routing of jobs (crates/worker/src/main.rs).
use kubernix.Prelude.{
  ℕ, [], ◌∷◌, Bytes, codes, refl, arith, none, some, true, false, List, ◌≡◌, ◌≤◌, ◌<◌, In, inl,
  ◌&&◌,
}
use kubernix.Prelude.Map
use kubernix.Prelude.Map.{Map}
use kubernix.Prelude.Outcome.{ok}
use kubernix.Prelude.{length, replicate, All, All-replicate}
use kubernix.TenantId.{TenantId, from_wire, tenant_id_eq}
use kubernix.Tenant.{derive_id}
use kubernix.Tenant.Derived.{derive_id-from_wire}
use kubernix.Uid.{line_bound, larger, max_bound, capped_bound, parse_uid_map_bound}
use kubernix.Uid.{
  UidAllocator, uid_base, uid_soft_cap, new, fresh, fresh_from, assign, allocate_for, allocate,
  release_uid, release, Request, allocate_to, after, serve,
}
use kubernix.Uid.Invariant.{IsValid, new-IsValid}
use kubernix.Uid.History.{uids_apart}
use kubernix.Retry.{
  failed, disk_full, finished, Observed, Setting, no_retries, Next, settled, disk_full_kind,
  next_action, terminal_failure, after_action, after_failure, after_run, round, retry_loop,
}
use kubernix.Retry.Loop.{Explains, retry_loop-ends, retry_loop-Explains}
use kubernix.Jobs.{
  has_text, jobs_subject, class_subjects, worker_subjects, worker_capabilities_satisfy,
}
use kubernix.Jobs.Routing.{jobs_subject-satisfied}
use kubernix.Examples.Data.{acme, beta}

abbrev start : UidAllocator
start = record { ceiling = 3000; next = 2000; free = []; assigned = [] }

started : new (some 3000) ≡ ok start
unfolding new
started = refl

start-IsValid : IsValid start
start-IsValid = new-IsValid (some 3000) start started

abbrev first : UidAllocator
first = record { ceiling = 3000; next = 2001; free = []; assigned = (acme, 2000) ∷ [] }

allocated : allocate acme start ≡ ok (2000, first)
unfolding allocate allocate_for fresh fresh_from assign Map.get Map.insert
allocated = refl

abbrev requests : List Request
requests = allocate_to acme ∷ allocate_to beta ∷ []

beta_uid : Map.get beta (serve start requests).assigned ≡ some 2001
unfolding serve after allocate allocate_for fresh fresh_from assign Map.get Map.insert
beta_uid = refl

uids_apart_example : (beta ≡ beta) × (uid_base ≤ 2001) × (2001 < uid_soft_cap)
uids_apart_example = uids_apart 3000 start requests beta beta 2001 started beta_uid beta_uid

acme_used : Map.get acme first.assigned ≡ some 2000
unfolding Map.get
acme_used = refl

beta_unused : Map.get beta (release acme first).assigned ≡ none
unfolding release release_uid Map.get Map.remove
beta_unused = refl

abbrev cfg : Setting
cfg = record {
  has_vm = true;
  original_boot_was_fresh = false;
  already_on_big_parallel = false;
  hang_message = codes "hung";
}

-- The first build fills the disk, and so does each later one.
abbrev always_full : ℕ → Observed
always_full n = record {
  run = finished (failed (codes "no space") none) (codes "log");
  status = some disk_full;
  reconnects = true;
}

retry_loop-ends_example :
    (last : ℕ) × (next : Next) × (retry_loop 4 cfg always_full 0 no_retries ≡ some (last, next))
    × (last ≤ 3)
retry_loop-ends_example = retry_loop-ends 4 cfg always_full (omega arith)

gives_up :
    retry_loop 4 cfg always_full 0 no_retries
    ≡ some (1, settled (failed (codes "no space") (some disk_full_kind)) (codes "log"))
unfolding retry_loop round after_run after_failure next_action after_action terminal_failure
gives_up = refl

retry_loop-Explains_example :
    Explains cfg (always_full 1) (failed (codes "no space") (some disk_full_kind)) (codes "log")
retry_loop-Explains_example =
    retry_loop-Explains 4 cfg always_full 0 no_retries 1
      (failed (codes "no space") (some disk_full_kind)) (codes "log") gives_up

abbrev linux : Bytes
linux = codes "x86_64-linux"

routed : In (jobs_subject linux (codes "kvm" ∷ [])) (worker_subjects linux (codes "kvm" ∷ []) true)
unfolding jobs_subject worker_subjects class_subjects has_text
routed = inl refl

only_kvm :
    (has_text (codes "kvm" ∷ []) (codes "kvm")
      && has_text (codes "kvm" ∷ []) (codes "big-parallel"))
    ≡ false
unfolding has_text
only_kvm = refl

jobs_subject-satisfied_example :
    worker_capabilities_satisfy (codes "kvm" ∷ []) (codes "kvm" ∷ []) ≡ true
jobs_subject-satisfied_example =
    jobs_subject-satisfied linux (codes "kvm" ∷ []) (codes "kvm" ∷ []) true routed only_kvm

host_map : parse_uid_map_bound (codes "         0          0 4294967295") ≡ some 4294967295
unfolding parse_uid_map_bound capped_bound max_bound larger line_bound
host_map = refl

abbrev sevens : Bytes
sevens = replicate 32 7

sevens-IsDigest : (8 ≤ length sevens) × All (λ b. b < 256) sevens
sevens-IsDigest = (omega arith, All-replicate (λ b. b < 256) 32 7 (omega arith))

derive_id-from_wire_example :
    (id : TenantId) × (derive_id (λ s. sevens) (codes "user:alice") ≡ ok id)
    × (from_wire id.as_str ≡ some id)
derive_id-from_wire_example = derive_id-from_wire (λ s. sevens) (codes "user:alice") sevens-IsDigest
