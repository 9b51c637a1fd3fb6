-- ===== src/MemoryStore/Vouched.antt =====
-- The lookups across tenants and the signatures of `MemoryStore` (crates/server/src/store.rs).
use kubernix.Prelude.{
  Option, some, true, Bytes, List, [], ◌∷◌, ◌≡◌, refl, sym, ◌∙◌, ap, subst, Bool-cases,
  Option-cases, some-injective, inl, inr, In,
}
use kubernix.Prelude.Eq.{==→eq, nat_eq, list_eq}
use kubernix.Prelude.Map
use kubernix.Prelude.Map.{Map, In-iter, get-insert, get-insert_self}
use kubernix.TenantId.{TenantId, tenant_id_eq}
use kubernix.StorePath.{StorePath, store_path_eq}
use kubernix.Keys.{object_key_eq, Tier, tier_eq, verified}
use kubernix.PathInfo.{PathInfo, RemoteObject}
use kubernix.MemoryStore.{Inner, MemoryStore, partition}
use kubernix.MemoryStore.Methods.{has_hash_part}
use kubernix.MemoryStore.Sharing.{
  find_entry, has_tier, verified_in, first_of_partitions, find_verified_by_hash_part,
}

-- The first entry that fits is one of the entries, and fits.
find_entry-In :
    (hash : Bytes) (entries : List (StorePath × PathInfo)) (p : StorePath) (info : PathInfo)
    → find_entry hash entries ≡ some (p, info)
    → In (p, info) entries × (has_hash_part hash p ≡ true)
unfolding find_entry
find_entry-In hash [] p info h = cc
find_entry-In hash (entry ∷ rest) p info h = elim (Bool-cases (has_hash_part hash entry.0)) [
  | inl e ↦
      let q : entry ≡ (p, info) = some-injective (rw e at h) in
      (inl (sym q), subst (λ x. has_hash_part hash x ≡ true) (ap (λ x. x.0) q) e)
  | inr e ↦ let (i, f) = find_entry-In hash rest p info (rw e at h) in (inr i, f)
]

first_of_partitions-In :
    {A : Type 0} (f : Inner → Option A) (entries : List (TenantId × Inner)) (a : A)
    → first_of_partitions f entries ≡ some a
    → (t : TenantId) × (inner : Inner) × In (t, inner) entries × (f inner ≡ some a)
unfolding first_of_partitions
first_of_partitions-In f [] a h = cc
first_of_partitions-In f ((t, inner) ∷ rest) a h = elim (Option-cases (f inner)) [
  | inl e ↦
      let (u, other, i, g) = first_of_partitions-In f rest a (rw (e, first_of_partitions) at h) in
      (u, other, inr i, g)
  | inr (b, e) ↦ (t, inner, inl refl, e ∙ (rw (e, first_of_partitions) at h))
]

-- A path that a tenant's partition holds as verified.
pub record IsVerifiedIn (inner : Inner) (hash : Bytes) (info : PathInfo) (object : RemoteObject)
    : Type 0 where
  pub path : StorePath
  pub hashed : has_hash_part hash path ≡ true
  pub info_of : Map.get path inner.paths ≡ some info
  pub tier_of : Map.get path inner.tiers ≡ some verified
  pub object_of : Map.get path inner.remote ≡ some object

has_tier→eq :
    (t : Tier) (p : StorePath) (inner : Inner)
    → has_tier t p inner ≡ true
    → Map.get p inner.tiers ≡ some t
unfolding has_tier
has_tier→eq t p inner h = elim (Option-cases (Map.get p inner.tiers)) [
  | inl e ↦ cc (rw (e, has_tier) at h)
  | inr (u, e) ↦ e ∙ ap some (==→eq u t (rw (e, has_tier) at h))
]

verified_in_sound :
    (hash : Bytes) (inner : Inner) (info : PathInfo) (object : RemoteObject)
    → verified_in hash inner ≡ some (info, object)
    → IsVerifiedIn inner hash info object
unfolding verified_in
verified_in_sound hash inner info object h =
    elim (Option-cases (find_entry hash (Map.iter inner.paths))) [
      | inl e ↦ cc (rw (e, verified_in) at h)
      | inr ((p, i), e) ↦ elim (Bool-cases (has_tier verified p inner)) [
        | inr f ↦ cc (rw f at (rw (e, verified_in) at h))
        | inl f ↦ elim (Option-cases (Map.get p inner.remote)) [
          | inl g ↦ cc (rw g at (rw f at (rw (e, verified_in) at h)))
          | inr (o, g) ↦
              let q : (i, o) ≡ (info, object) =
                some-injective (rw g at (rw f at (rw (e, verified_in) at h))) in
              let (member, hashed) = find_entry-In hash (Map.iter inner.paths) p i e in
              record {
                path = p;
                hashed = hashed;
                info_of = In-iter inner.paths p i member ∙ ap (λ x. some x.0) q;
                tier_of = has_tier→eq verified p inner f;
                object_of = g ∙ ap (λ x. some x.1) q;
              }
        ]
      ]
    ]

partition-get :
    (t : TenantId) (inner : Inner) (s : MemoryStore)
    → Map.get t s.inner ≡ some inner
    → partition t s ≡ inner
unfolding partition
partition-get t inner s e = rw (e, partition)

-- What `find_verified_by_hash_part` returns is some tenant's: that tenant holds, as verified, a path
-- with this hash part, of which these are the record and the object.
pub find_verified_sound :
    (hash : Bytes) (s : MemoryStore) (info : PathInfo) (object : RemoteObject)
    → find_verified_by_hash_part hash s ≡ some (info, object)
    → (t : TenantId) × IsVerifiedIn (partition t s) hash info object
unfolding find_verified_by_hash_part
find_verified_sound hash s info object h =
    let (t, inner, member, found) =
      first_of_partitions-In (verified_in hash) (Map.iter s.inner) (info, object) h in
    (
      t,
      subst (λ x. IsVerifiedIn x hash info object)
          (sym (partition-get t inner s (In-iter s.inner t inner member)))
          (verified_in_sound hash inner info object found),
    )
