-- ===== src/MemoryStore/Signatures.antt =====
-- `add_signatures` of `MemoryStore` (crates/server/src/store.rs).
use kubernix.Prelude.{
  none, some, true, not, Bytes, List, [], ◌∷◌, ◌++◌, ◌≡◌, if◌then◌else◌, refl, sym, ◌∙◌, ap,
  Bool-cases, inl, inr, ◌⊎◌, In, In-append, In-append_left, In-append_right,
}
use kubernix.Prelude.Eq.{◌==◌, ==→eq, ==-refl, nat_eq, list_eq}
use kubernix.Prelude.Map
use kubernix.Prelude.Map.{Map, get-insert, get-insert_self}
use kubernix.Prelude.Outcome.{ok, err}
use kubernix.TenantId.{TenantId, tenant_id_eq}
use kubernix.StorePath.{StorePath, store_path_eq}
use kubernix.PathInfo.{PathInfo}
use kubernix.MemoryStore.{Inner, MemoryStore, partition}
use kubernix.MemoryStore.Methods.{query_path_info, not_found}
use kubernix.MemoryStore.Sharing.{contains_sig, push_sigs, sign_found, sign_path, add_signatures}
use kubernix.MemoryStore.History.{partition-write_self}

contains_sig→In : (xs : List Bytes) (sig : Bytes) → contains_sig xs sig ≡ true → In sig xs
unfolding contains_sig
contains_sig→In [] sig h = cc
contains_sig→In (x ∷ xs) sig h = elim (Bool-cases (x == sig)) [
  | inl e ↦ inl (sym (==→eq x sig e))
  | inr e ↦ inr (contains_sig→In xs sig (rw e at h))
]

In→contains_sig : (xs : List Bytes) (sig : Bytes) → In sig xs → contains_sig xs sig ≡ true
unfolding contains_sig
In→contains_sig [] sig h = absurd h
In→contains_sig (x ∷ xs) sig (inl e) = rw e (rw (==-refl x))
In→contains_sig (x ∷ xs) sig (inr m) = elim (Bool-cases (x == sig)) [
  | inl e ↦ rw e
  | inr e ↦ rw e (In→contains_sig xs sig m)
]

abbrev pub Distinct : List Bytes → Type 0
Distinct [] = Unit
Distinct (x ∷ xs) = (In x xs → ⊥) × Distinct xs

Distinct-snoc :
    (xs : List Bytes) (sig : Bytes) → Distinct xs → (In sig xs → ⊥) → Distinct (xs ++ sig ∷ [])
Distinct-snoc [] sig d n = ((λ m. m), tt)
Distinct-snoc (x ∷ xs) sig (h, d) n = (
  λ m. elim (In-append x xs (sig ∷ []) m) [
    | inl i ↦ h i
    | inr i ↦ elim i [ inl e ↦ n (inl (sym e)) | inr z ↦ z ]
  ],
  Distinct-snoc xs sig d (λ m. n (inr m)),
)

abbrev pushed : List Bytes → Bytes → List Bytes
pushed old sig = if not (contains_sig old sig) then old ++ sig ∷ [] else old

pushed-Distinct : (old : List Bytes) (sig : Bytes) → Distinct old → Distinct (pushed old sig)
pushed-Distinct old sig d = elim (Bool-cases (contains_sig old sig)) [
  | inl e ↦ rw e d
  | inr e ↦ rw e (Distinct-snoc old sig d (λ m. cc (e, In→contains_sig old sig m)))
]

-- The pushed list holds the old ones and the new one, and no other.
pushed-In : (old : List Bytes) (sig x : Bytes) → In x (pushed old sig) → In x old ⊎ (x ≡ sig)
pushed-In old sig x m = elim (Bool-cases (contains_sig old sig)) [
  | inl e ↦ inl (rw e at m)
  | inr e ↦ elim (In-append x old (sig ∷ []) (rw e at m)) [
    | inl i ↦ inl i
    | inr i ↦ elim i [ inl q ↦ inr q | inr z ↦ absurd z ]
  ]
]

In-pushed_old : (old : List Bytes) (sig x : Bytes) → In x old → In x (pushed old sig)
In-pushed_old old sig x m = elim (Bool-cases (contains_sig old sig)) [
  | inl e ↦ rw e m
  | inr e ↦ rw e (In-append_left x old (sig ∷ []) m)
]

In-pushed_new : (old : List Bytes) (sig : Bytes) → In sig (pushed old sig)
In-pushed_new old sig = elim (Bool-cases (contains_sig old sig)) [
  | inl e ↦ rw e (contains_sig→In old sig e)
  | inr e ↦ rw e (In-append_right sig old (sig ∷ []) (inl refl))
]

push_sigs-Distinct : (sigs old : List Bytes) → Distinct old → Distinct (push_sigs old sigs)
unfolding push_sigs
push_sigs-Distinct [] old d = d
push_sigs-Distinct (sig ∷ sigs) old d =
    push_sigs-Distinct sigs (pushed old sig) (pushed-Distinct old sig d)

push_sigs-old : (sigs old : List Bytes) (x : Bytes) → In x old → In x (push_sigs old sigs)
unfolding push_sigs
push_sigs-old [] old x m = m
push_sigs-old (sig ∷ sigs) old x m =
    push_sigs-old sigs (pushed old sig) x (In-pushed_old old sig x m)

push_sigs-new : (sigs old : List Bytes) (x : Bytes) → In x sigs → In x (push_sigs old sigs)
unfolding push_sigs
push_sigs-new [] old x m = absurd m
push_sigs-new (sig ∷ sigs) old x (inl e) =
    rw e (push_sigs-old sigs (pushed old sig) sig (In-pushed_new old sig))
push_sigs-new (sig ∷ sigs) old x (inr m) = push_sigs-new sigs (pushed old sig) x m

push_sigs-only :
    (sigs old : List Bytes) (x : Bytes) → In x (push_sigs old sigs) → In x old ⊎ In x sigs
unfolding push_sigs
push_sigs-only [] old x m = inl m
push_sigs-only (sig ∷ sigs) old x m = elim (push_sigs-only sigs (pushed old sig) x m) [
  | inr i ↦ inr (inr i)
  | inl i ↦ elim (pushed-In old sig x i) [ inl j ↦ inl j | inr e ↦ inr (inl e) ]
]

-- The signatures `out` are `old` and `sigs`, without repetition.
pub record IsUnion (old sigs out : List Bytes) : Type 0 where
  pub keeps : (x : Bytes) → In x old → In x out
  pub adds : (x : Bytes) → In x sigs → In x out
  pub only : (x : Bytes) → In x out → In x old ⊎ In x sigs
  pub distinct : Distinct old → Distinct out

push_sigs-IsUnion : (old sigs : List Bytes) → IsUnion old sigs (push_sigs old sigs)
push_sigs-IsUnion old sigs = record {
  keeps = push_sigs-old sigs old;
  adds = push_sigs-new sigs old;
  only = push_sigs-only sigs old;
  distinct = push_sigs-Distinct sigs old;
}

-- What `add_signatures` leaves of the partition, and what it returns.
signed_partition :
    (t : TenantId) (path : StorePath) (sigs : List Bytes) (s : MemoryStore)
    → partition t (add_signatures t path sigs s).0 ≡ (sign_path path sigs (partition t s)).0
unfolding add_signatures
signed_partition t path sigs s = partition-write_self t (sign_path path sigs) s

signed_result :
    (t : TenantId) (path : StorePath) (sigs : List Bytes) (s : MemoryStore)
    → (add_signatures t path sigs s).1 ≡ (sign_path path sigs (partition t s)).1
unfolding add_signatures
signed_result t path sigs s = refl

info_of_partition :
    (t : TenantId) (path : StorePath) (s : MemoryStore)
    → query_path_info t path s ≡ Map.get path (partition t s).paths
unfolding query_path_info
info_of_partition t path s = refl

sign_path-some :
    (path : StorePath) (sigs : List Bytes) (inner : Inner) (info : PathInfo)
    → Map.get path inner.paths ≡ some info
    → sign_path path sigs inner ≡ sign_found path sigs (some info) inner
unfolding sign_path
sign_path-some path sigs inner info e = rw (e, sign_path)

sign_path-none :
    (path : StorePath) (sigs : List Bytes) (inner : Inner)
    → Map.get path inner.paths ≡ none
    → sign_path path sigs inner ≡ (inner, err (not_found path.as_str))
unfolding sign_path sign_found
sign_path-none path sigs inner e = rw (e, sign_path)

sign_found-get :
    (path : StorePath) (sigs : List Bytes) (inner : Inner) (info : PathInfo)
    → (Map.get path (sign_found path sigs (some info) inner).0.paths
        ≡ some (record info { sigs = push_sigs info.sigs sigs }))
      × ((sign_found path sigs (some info) inner).1 ≡ ok tt)
unfolding sign_found
sign_found-get path sigs inner info = (get-insert_self path _ inner.paths, refl)

module _ (t : TenantId) (path : StorePath) (sigs : List Bytes) (s : MemoryStore) where
  -- For a path that is valid, `add_signatures` succeeds, and then the path's record is the old one
  -- with other signatures: the old and the new ones and no more, none of them twice if none of the
  -- old ones was.
  pub add_signatures_known :
      (info : PathInfo)
      → query_path_info t path s ≡ some info
      → (out : List Bytes) × ((add_signatures t path sigs s).1 ≡ ok tt)
        × (query_path_info t path (add_signatures t path sigs s).0
            ≡ some (record info { sigs = out }))
        × IsUnion info.sigs sigs out
  add_signatures_known info known =
      let p =
        sign_path-some path sigs (partition t s) info (sym (info_of_partition t path s) ∙ known) in
      let (found, result) = sign_found-get path sigs (partition t s) info in
      (
        push_sigs info.sigs sigs,
        signed_result t path sigs s ∙ ap (λ x. x.1) p ∙ result,
        info_of_partition t path (add_signatures t path sigs s).0
            ∙ ap (λ x. Map.get path x.paths) (signed_partition t path sigs s ∙ ap (λ x. x.0) p)
            ∙ found,
        push_sigs-IsUnion info.sigs sigs,
      )

  -- For a path that is not valid, `add_signatures` fails, and the tenant's partition is as before.
  pub add_signatures_unknown :
      query_path_info t path s ≡ none
      → ((add_signatures t path sigs s).1 ≡ err (not_found path.as_str))
        × (partition t (add_signatures t path sigs s).0 ≡ partition t s)
  add_signatures_unknown unknown =
      let p =
        sign_path-none path sigs (partition t s) (sym (info_of_partition t path s) ∙ unknown) in
      (
        signed_result t path sigs s ∙ ap (λ x. x.1) p,
        signed_partition t path sigs s ∙ ap (λ x. x.0) p,
      )
