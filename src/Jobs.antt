-- ===== src/Jobs.antt =====
-- How a job finds a worker: the subject it is published to (crates/server/src/jobs.rs), and the
-- subjects and the features of a worker (crates/worker/src/main.rs).
pub mod Routing
use kubernix.Prelude.{
  join, ℕ, ◌++◌, ◌∷◌, [], List, Bytes, Bool, true, false, codes, not, ◌&&◌, ◌||◌, if◌then◌else◌,
  map, eqb, ltb,
}
use kubernix.Prelude.Eq.{Eq, ◌==◌, nat_eq, list_eq}
use kubernix.Prelude.Outcome.{Outcome, ok, err}

-- `xs.contains(&x)`
unfoldable pub has_text : List Bytes → Bytes → Bool
has_text [] x = false
has_text (y ∷ ys) x = if y == x then true else has_text ys x

-- `format!("kubernix.jobs.{system}")`, and the same with a class.
unfoldable pub plain_subject : Bytes → Bytes
plain_subject system = codes "kubernix.jobs." ++ system

unfoldable pub class_subject : Bytes → Bytes → Bytes
class_subject system class = codes "kubernix.jobs." ++ (system ++ (codes "." ++ class))

unfoldable pub jobs_subject : Bytes → List Bytes → Bytes
jobs_subject system features =
    if has_text features (codes "kvm")
    then class_subject system (codes "kvm")
    else if has_text features (codes "big-parallel")
    then class_subject system (codes "big-parallel")
    else plain_subject system

unfoldable pub class_subjects : Bytes → List Bytes → List Bytes
class_subjects system [] = []
class_subjects system (class ∷ classes) = class_subject system class ∷ class_subjects system classes

unfoldable pub worker_subjects : Bytes → List Bytes → Bool → List Bytes
worker_subjects system classes exclusive =
    if not exclusive
    then plain_subject system ∷ class_subjects system classes
    else class_subjects system classes

-- The order of `Ord for String`, which is that of the bytes.
unfoldable pub before : Bytes → Bytes → Bool
before [] b = true
before (x ∷ a) [] = false
before (x ∷ a) (y ∷ b) = if eqb x y then before a b else ltb x y

unfoldable pub insert_sorted : Bytes → List Bytes → List Bytes
insert_sorted a [] = a ∷ []
insert_sorted a (b ∷ bs) = if before a b then a ∷ (b ∷ bs) else b ∷ insert_sorted a bs

-- `sorted.sort()`
unfoldable pub sort : List Bytes → List Bytes
sort [] = []
sort (a ∷ rest) = insert_sorted a (sort rest)

-- `system.replace('-', "_")`
unfoldable pub underscored : Bytes → Bytes
underscored s = map (λ c. if eqb c b'-' then b'_' else c) s

unfoldable pub durable_name : Bytes → List Bytes → Bool → Bytes
durable_name system classes exclusive =
    if exclusive
    then codes "worker-" ++ (underscored system ++ (codes "-" ++ join (codes "_") (sort classes)))
    else codes "worker-" ++ underscored system

-- The error is that the worker would be subscribed to nothing.
pub data NoSubjects : Type 0 where
  no_subjects : NoSubjects

unfoldable pub worker_subjects_and_consumer :
    Bytes → List Bytes → Bool → Outcome NoSubjects (List Bytes × Bytes)
worker_subjects_and_consumer system classes exclusive =
    elim (worker_subjects system classes exclusive) [
      | [] ↦ err no_subjects
      | s ∷ ss ↦ ok (s ∷ ss, durable_name system classes exclusive)
    ]

-- `f.as_str() == "kvm" || f.as_str() == "big-parallel"`
unfoldable pub is_known : Bytes → Bool
is_known f = f == codes "kvm" || f == codes "big-parallel"

unfoldable pub worker_capabilities_satisfy : List Bytes → List Bytes → Bool
worker_capabilities_satisfy classes [] = true
worker_capabilities_satisfy classes (f ∷ fs) =
    let rest = worker_capabilities_satisfy classes fs in
    if is_known f then has_text classes f && rest else rest

abbrev pub max_job_deliver : ℕ
max_job_deliver = 5

-- What becomes of a delivered job: it is built, or handed back for another worker, or failed.
pub data Dispatch : Type 0 where
  build nak fail : Dispatch

unfoldable pub dispatch : List Bytes → List Bytes → ℕ → Dispatch
dispatch classes required delivered =
    if not (worker_capabilities_satisfy classes required)
    then (if ltb delivered max_job_deliver then nak else fail)
    else build
