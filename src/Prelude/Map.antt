-- ===== src/Prelude/Map.antt =====
-- A map as a list of its entries, the newest first. The order stands for the arbitrary iteration
-- order of a `HashMap`: a theorem ranges over every list of entries.
use mathlib.Core.Path.{◌≡◌, ap, sym}
use mathlib.Core.Bool.{Bool, true, false}
use mathlib.Core.Option.{Option, none, some}
use mathlib.Core.List.{List, [], ◌∷◌}
use native.Mathlib.Omega.{arith}
use kubernix.Prelude.Tests.{if◌then◌else◌, Option-cases, Bool-cases}
use kubernix.Prelude.Lists.{In}
use mathlib.Core.Logic.{inl, inr}
use kubernix.Prelude.Eq.{Eq, ◌==◌}

abbrev pub Map {ℓ κ} : Type ℓ → Type κ → Type (ℓ ⊔ κ)
Map K V = List (K × V)

-- `m.keys()`
abbrev pub keys {ℓ κ} : {K : Type ℓ} {V : Type κ} → Map K V → List K
keys [] = []
keys ((k, v) ∷ m) = k ∷ keys m

module _ {ℓ κ} {K : Type ℓ} {V : Type κ} ⦃e : Eq K⦄ where
  -- `m.get(k)`
  unfoldable pub get : K → Map K V → Option V
  get k [] = none
  get k ((j, v) ∷ m) = if j == k then some v else get k m

  -- `m.remove(k)`
  unfoldable pub remove : K → Map K V → Map K V
  remove k [] = []
  remove k ((j, v) ∷ m) = let rest = remove k m in if j == k then rest else (j, v) ∷ rest

  -- `m.insert(k, v)`
  unfoldable pub insert : K → V → Map K V → Map K V
  unfolding remove
  insert k v m = (k, v) ∷ remove k m

  -- `m.contains_key(k)`
  unfoldable pub contains_key : K → Map K V → Bool
  unfolding get
  contains_key k m = elim (get k m) [ none ↦ false | some v ↦ true ]

  -- `m.entry(k).or_insert(v)`
  unfoldable pub or_insert : K → V → Map K V → Map K V
  unfolding insert
  or_insert k v m = elim (get k m) [ none ↦ insert k v m | some _ ↦ m ]

  -- `m.iter()`: each key with its value.
  unfoldable pub lookups : Map K V → List K → List (K × V)
  unfolding get
  lookups m [] = []
  lookups m (k ∷ ks) = elim (get k m) [ none ↦ lookups m ks | some v ↦ (k, v) ∷ lookups m ks ]

  pub get-remove : (k j : K) (m : Map K V) → get j (remove k m) ≡ (if k == j then none else get j m)
  unfolding get remove
  get-remove k j [] = ground arith
  get-remove k j ((i, v) ∷ m) =
      ground (arith, get-remove k j m, e.beq_iff i k, e.beq_iff i j, e.beq_iff k j)

  pub get-insert :
      (k j : K) (v : V) (m : Map K V) → get j (insert k v m) ≡ (if k == j then some v else get j m)
  unfolding get insert
  get-insert k j v m = ground (arith, get-remove k j m)

  pub get-insert_self : (k : K) (v : V) (m : Map K V) → get k (insert k v m) ≡ some v
  get-insert_self k v m = ground (arith, get-insert k k v m, e.beq_iff k k)

  pub get-insert_ne : (k j : K) (v : V) (m : Map K V) → (k ≡ j → ⊥) → get j (insert k v m) ≡ get j m
  get-insert_ne k j v m h = ground (arith, get-insert k j v m, e.beq_iff k j)

  pub get-remove_self : (k : K) (m : Map K V) → get k (remove k m) ≡ none
  get-remove_self k m = ground (arith, get-remove k k m, e.beq_iff k k)

  pub get-remove_ne : (k j : K) (m : Map K V) → (k ≡ j → ⊥) → get j (remove k m) ≡ get j m
  get-remove_ne k j m h = ground (arith, get-remove k j m, e.beq_iff k j)

  -- An entry that is there stays.
  pub get-or_insert :
      (k j : K) (v w : V) (m : Map K V) → get j m ≡ some w → get j (or_insert k v m) ≡ some w
  unfolding or_insert
  get-or_insert k j v w m h = elim (Option-cases (get k m)) [
    | inr (u, some_) ↦ rw (some_, or_insert) h
    | inl none_ ↦
        rw (none_, or_insert) (ground (arith, get-insert k j v m, h, none_, e.beq_iff k j))
  ]

  pub get-or_insert_new :
      (k : K) (v : V) (m : Map K V) → get k m ≡ none → get k (or_insert k v m) ≡ some v
  unfolding or_insert
  get-or_insert_new k v m h = rw (h, or_insert) (get-insert_self k v m)

module _ {K V : Type 0} ⦃e : Eq K⦄ where
  abbrev pub iter : Map K V → List (K × V)
  iter m = lookups m (keys m)

  In-lookups :
      (m : Map K V) (ks : List K) (k : K) (v : V) → In (k, v) (lookups m ks) → get k m ≡ some v
  unfolding lookups
  In-lookups m [] k v h = absurd h
  In-lookups m (j ∷ ks) k v h = elim (Option-cases (get j m)) [
    | inl n ↦ In-lookups m ks k v (rw (n, lookups) at h)
    | inr (w, s) ↦ elim (rw (s, lookups) at h) [
      | inl p ↦ cc (ap (λ q. q.0) p, ap (λ q. q.1) p, s)
      | inr i ↦ In-lookups m ks k v i
    ]
  ]

  -- Iteration shows what `get` returns.
  pub In-iter : (m : Map K V) (k : K) (v : V) → In (k, v) (iter m) → get k m ≡ some v
  In-iter m k v h = In-lookups m (keys m) k v h

  get-keys : (m : Map K V) (k : K) (v : V) → get k m ≡ some v → In k (keys m)
  unfolding get
  get-keys [] k v h = cc
  get-keys ((j, w) ∷ m) k v h = elim (Bool-cases (j == k)) [
    | inl q ↦ inl (sym ((e.beq_iff j k).0 q))
    | inr q ↦ inr (get-keys m k v (rw q at h))
  ]

  lookups-In :
      (m : Map K V) (ks : List K) (k : K) (v : V)
      → In k ks
      → get k m ≡ some v
      → In (k, v) (lookups m ks)
  unfolding lookups
  lookups-In m [] k v h g = absurd h
  lookups-In m (j ∷ ks) k v h g = elim (Option-cases (get j m)) [
    | inl n ↦ rw (n, lookups) (elim h [ inl p ↦ cc (p, g, n) | inr i ↦ lookups-In m ks k v i g ])
    | inr (w, s) ↦
        rw (s, lookups)
          (elim h [ inl p ↦ inl (cc (p, g, s)) | inr i ↦ inr (lookups-In m ks k v i g) ])
  ]

  pub iter-In : (m : Map K V) (k : K) (v : V) → get k m ≡ some v → In (k, v) (iter m)
  iter-In m k v g = lookups-In m (keys m) k v (get-keys m k v g) g
