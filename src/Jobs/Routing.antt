-- ===== src/Jobs/Routing.antt =====
-- The jobs that reach a worker, of crates/server/src/jobs.rs and crates/worker/src/main.rs.
use kubernix.Prelude.{
  ◌++◌, ◌∷◌, [], List, Bytes, Bool, true, false, codes, ◌&&◌, ◌≡◌, refl, sym, ◌∙◌, subst,
  append-nil, In, Bool-cases, inl, inr, ◌⊎◌, append-cancel,
}
use kubernix.Prelude.Eq.{◌==◌, nat_eq, list_eq, ==-refl, ==→eq}
use kubernix.Jobs.{
  has_text, plain_subject, class_subject, jobs_subject, class_subjects, worker_subjects, is_known,
  worker_capabilities_satisfy,
}

has_text-In : (xs : List Bytes) (x : Bytes) → has_text xs x ≡ true → In x xs
unfolding has_text
has_text-In [] x h = cc
has_text-In (y ∷ ys) x h = elim (Bool-cases (y == x)) [
  | inl e ↦ inl (sym (==→eq y x e))
  | inr e ↦ inr (has_text-In ys x (rw e at h))
]

In-has_text : (xs : List Bytes) (x : Bytes) → In x xs → has_text xs x ≡ true
unfolding has_text
In-has_text [] x m = absurd m
In-has_text (y ∷ ys) x (inl e) = rw e (rw (==-refl y) refl)
In-has_text (y ∷ ys) x (inr m) = elim (Bool-cases (y == x)) [
  | inl e ↦ rw e refl
  | inr e ↦ rw e (In-has_text ys x m)
]

-- Subjects of different classes are different, and none is the plain subject.
class_subject-injective :
    (system c d : Bytes) → class_subject system c ≡ class_subject system d → c ≡ d
unfolding class_subject
class_subject-injective system c d h =
    append-cancel (codes ".") c d
      (append-cancel system _ _ (append-cancel (codes "kubernix.jobs.") _ _ h))

class_subject-ne-plain_subject :
    (system c : Bytes) → class_subject system c ≡ plain_subject system → ⊥
unfolding class_subject plain_subject
class_subject-ne-plain_subject system c h =
    let e : system ++ (codes "." ++ c) ≡ system ++ [] =
      append-cancel (codes "kubernix.jobs.") _ _ h ∙ sym (append-nil system) in
    let q = append-cancel system (codes "." ++ c) [] e in cc (let r : (b'.' ∷ c) ≡ [] = q in r)

class_subjects-In :
    (system c : Bytes) (classes : List Bytes)
    → In (class_subject system c) (class_subjects system classes)
    → In c classes
unfolding class_subjects
class_subjects-In system c [] m = absurd m
class_subjects-In system c (d ∷ ds) (inl e) = inl (class_subject-injective system c d e)
class_subjects-In system c (d ∷ ds) (inr m) = inr (class_subjects-In system c ds m)

worker_subjects-In :
    (system c : Bytes) (classes : List Bytes) (exclusive : Bool)
    → In (class_subject system c) (worker_subjects system classes exclusive)
    → In c classes
unfolding worker_subjects
worker_subjects-In system c classes true m = class_subjects-In system c classes m
worker_subjects-In system c classes false (inl e) =
    absurd (class_subject-ne-plain_subject system c e)
worker_subjects-In system c classes false (inr m) = class_subjects-In system c classes m

satisfies :
    (classes features : List Bytes)
    → ((f : Bytes) → In f features → is_known f ≡ true → has_text classes f ≡ true)
    → worker_capabilities_satisfy classes features ≡ true
unfolding worker_capabilities_satisfy
satisfies classes [] h = refl
satisfies classes (f ∷ fs) h =
    let rest = satisfies classes fs (λ g m k. h g (inr m) k) in
    elim (Bool-cases (is_known f)) [ inl k ↦ rw k (rw (h f (inl refl) k) rest) | inr k ↦ rw k rest ]

known : (f : Bytes) → is_known f ≡ true → (f ≡ codes "kvm") ⊎ (f ≡ codes "big-parallel")
unfolding is_known
known f h = elim (Bool-cases (f == codes "kvm")) [
  | inl e ↦ inl (==→eq f (codes "kvm") e)
  | inr e ↦ inr (==→eq f (codes "big-parallel") (rw e at h))
]

-- The class that the subject of a job names is one of the worker's.
routed_kvm :
    (system : Bytes) (classes features : List Bytes) (exclusive : Bool)
    → In (jobs_subject system features) (worker_subjects system classes exclusive)
    → has_text features (codes "kvm") ≡ true
    → has_text classes (codes "kvm") ≡ true
unfolding jobs_subject
routed_kvm system classes features exclusive m k =
    In-has_text classes (codes "kvm")
      (worker_subjects-In system (codes "kvm") classes exclusive (rw k at m))

routed_big :
    (system : Bytes) (classes features : List Bytes) (exclusive : Bool)
    → In (jobs_subject system features) (worker_subjects system classes exclusive)
    → has_text features (codes "kvm") ≡ false
    → has_text features (codes "big-parallel") ≡ true
    → has_text classes (codes "big-parallel") ≡ true
unfolding jobs_subject
routed_big system classes features exclusive m k b =
    In-has_text classes (codes "big-parallel")
      (worker_subjects-In system (codes "big-parallel") classes exclusive (rw b at (rw k at m)))

-- A worker that is subscribed to the subject of a job can satisfy all features of the job, unless
-- the job requires both kvm and big-parallel.
pub jobs_subject-satisfied :
    (system : Bytes) (classes features : List Bytes) (exclusive : Bool)
    → In (jobs_subject system features) (worker_subjects system classes exclusive)
    → (has_text features (codes "kvm") && has_text features (codes "big-parallel")) ≡ false
    → worker_capabilities_satisfy classes features ≡ true
jobs_subject-satisfied system classes features exclusive m both =
    satisfies classes features λ f i k. elim (known f k) [
      | inl e ↦
          let kvm = In-has_text features (codes "kvm") (subst (λ x. In x features) e i) in
          subst (λ x. has_text classes x ≡ true) (sym e)
            (routed_kvm system classes features exclusive m kvm)
      | inr e ↦
          let big = In-has_text features (codes "big-parallel") (subst (λ x. In x features) e i) in
          elim (Bool-cases (has_text features (codes "kvm"))) [
            | inl kvm ↦ cc (rw big at (rw kvm at both))
            | inr kvm ↦
                subst (λ x. has_text classes x ≡ true) (sym e)
                  (routed_big system classes features exclusive m kvm big)
          ]
    ]
