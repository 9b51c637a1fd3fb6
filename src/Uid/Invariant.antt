-- ===== src/Uid/Invariant.antt =====
-- The invariant of `UidAllocator` (crates/worker/src/uid.rs): the uids in use and the free ones are
-- apart, and all lie between `UID_BASE` and `next`.
use Prim.Native.Nat.{min}
use kubernix.Prelude.{
  ℕ, ◌+◌, ◌^◌, ◌%◌, ◌<◌, ◌≤◌, ◌≡◌, ◌∷◌, [], Option, none, some, List, leb, leb-false, subst, arith,
  inl, inr, In, refl, sym, Bool-cases,
}
use kubernix.Prelude.Map
use kubernix.Prelude.Map.{Map, get-insert, get-remove}
use kubernix.Prelude.Outcome.{Outcome, ok, err, panic, ok-injective}
use kubernix.TenantId.{TenantId, tenant_id_eq}
use kubernix.Uid.{uid_base, uid_soft_cap, UidAllocator, UidError, exhausted, new, fresh_from, fresh}

-- No element twice.
abbrev pub Distinct : List ℕ → Type 0
Distinct [] = Unit
Distinct (x ∷ xs) = (In x xs → ⊥) × Distinct xs

pub record IsValid (a : UidAllocator) : Type 0 where
  pub capped : a.ceiling ≤ uid_soft_cap
  pub next_in : (uid_base ≤ a.next) × (a.next ≤ a.ceiling)
  pub free_in : (u : ℕ) → In u a.free → (uid_base ≤ u) × (u < a.next)
  pub free_distinct : Distinct a.free
  pub used_in :
      (t : TenantId) (u : ℕ) → Map.get t a.assigned ≡ some u → (uid_base ≤ u) × (u < a.next)
  pub used_not_free : (t : TenantId) (u : ℕ) → Map.get t a.assigned ≡ some u → In u a.free → ⊥
  pub used_once :
      (s t : TenantId) (u : ℕ)
      → Map.get s a.assigned ≡ some u
      → Map.get t a.assigned ≡ some u
      → s ≡ t

new-IsValid_fields :
    (c : ℕ)
    → c ≤ uid_soft_cap
    → uid_base < c
    → IsValid (record { ceiling = c; next = uid_base; free = []; assigned = [] })
unfolding Map.get
new-IsValid_fields c h g = record {
  capped = h;
  next_in = (omega arith, omega arith);
  free_in = λ u m. absurd m;
  free_distinct = tt;
  used_in = λ t u e. cc;
  used_not_free = λ t u e m. m;
  used_once = λ s t u e f. cc;
}

-- A new allocator is valid.
pub new-IsValid : (bound : Option ℕ) (a : UidAllocator) → new bound ≡ ok a → IsValid a
unfolding new
new-IsValid none a h = cc
new-IsValid (some bound) a h = elim (Bool-cases (leb (min uid_soft_cap bound) uid_base)) [
  | inl e ↦ cc (rw e at h)
  | inr e ↦
      subst IsValid (ok-injective (rw e at h))
        (new-IsValid_fields (min uid_soft_cap bound) (omega arith) (leb-false _ _ e))
]

-- What `fresh` hands out is apart from every uid in use and from those still free.
pub record IsFresh (a : UidAllocator) (raw : ℕ) (b : UidAllocator) : Type 0 where
  pub valid : IsValid b
  pub same : b.assigned ≡ a.assigned
  pub in_range : (uid_base ≤ raw) × (raw < b.next)
  pub not_free : In raw b.free → ⊥
  pub not_used : (t : TenantId) → Map.get t a.assigned ≡ some raw → ⊥

pub record IsExhausted (a : UidAllocator) : Type 0 where
  pub none_free : a.free ≡ []
  pub all_used : a.next ≡ a.ceiling

-- `fresh` succeeds so, or fails since there is no uid left.
abbrev pub FreshPost : UidAllocator → Outcome UidError (ℕ × UidAllocator) → Type 0
FreshPost a (ok (raw, b)) = IsFresh a raw b
FreshPost a (err e) = (e ≡ exhausted) × IsExhausted a
FreshPost a panic = ⊥

IsFresh-recycled :
    (recycled : ℕ) (free : List ℕ) (a : UidAllocator)
    → a.free ≡ recycled ∷ free
    → IsValid a
    → IsFresh a recycled (record a { free = free })
IsFresh-recycled recycled free a e v =
    let into : (u : ℕ) → In u free → In u a.free = λ u m. subst (In u) (sym e) (inr m) in
    let mine : In recycled a.free = subst (In recycled) (sym e) (inl refl) in
    let apart : Distinct (recycled ∷ free) = subst Distinct e v.free_distinct in
    record {
      valid = record {
        capped = v.capped;
        next_in = v.next_in;
        free_in = λ u m. v.free_in u (into u m);
        free_distinct = apart.1;
        used_in = v.used_in;
        used_not_free = λ t u g m. v.used_not_free t u g (into u m);
        used_once = v.used_once;
      };
      same = refl;
      in_range = v.free_in recycled mine;
      not_free = apart.0;
      not_used = λ t g. v.used_not_free t recycled g mine;
    }

IsFresh-next :
    (a : UidAllocator)
    → a.next < a.ceiling
    → IsValid a
    → IsFresh a a.next (record a { next = (a.next + 1) % 2 ^ 32 })
IsFresh-next a h v =
    let e : (a.next + 1) % 2 ^ 32 ≡ a.next + 1 = omega (arith, v.capped) in
    rw e (record {
      valid = record {
        capped = v.capped;
        next_in = (omega (arith, v.next_in), omega arith);
        free_in = λ u m. omega (arith, v.free_in u m);
        free_distinct = v.free_distinct;
        used_in = λ t u g. omega (arith, v.used_in t u g);
        used_not_free = v.used_not_free;
        used_once = v.used_once;
      };
      same = refl;
      in_range = (omega (arith, v.next_in), omega arith);
      not_free = λ m. absurd (omega (arith, v.free_in a.next m));
      not_used = λ t g. absurd (omega (arith, v.used_in t a.next g));
    })

fresh_from_lem :
    (free : List ℕ) (a : UidAllocator) → a.free ≡ free → IsValid a → FreshPost a (fresh_from free a)
unfolding fresh_from
fresh_from_lem (recycled ∷ free) a e v = IsFresh-recycled recycled free a e v
fresh_from_lem [] a e v = elim (Bool-cases (leb a.ceiling a.next)) [
  | inl full ↦ rw full (refl, record { none_free = e; all_used = ground (arith, v.next_in) })
  | inr room ↦ rw room (IsFresh-next a (leb-false _ _ room) v)
]

pub fresh_lem : (a : UidAllocator) → IsValid a → FreshPost a (fresh a)
unfolding fresh
fresh_lem a v = fresh_from_lem a.free a refl v
