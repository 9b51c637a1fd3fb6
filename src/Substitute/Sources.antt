-- ===== src/Substitute/Sources.antt =====
-- What `resolve` and `exists` of crates/server/src/substitute.rs do to the store.
use kubernix.Prelude.{
  ℕ, ◌∷◌, [], List, Option, none, some, Bytes, ◌≡◌, In, inl, inr, refl, sym, subst, Bool-cases,
  ◌&&◌,
}
use kubernix.Prelude.Eq.{◌==◌, nat_eq, list_eq}
use kubernix.Prelude.Map
use kubernix.Prelude.Map.{get-insert_self}
use kubernix.Prelude.Outcome.{ok, err, panic}
use kubernix.TenantId.{TenantId}
use kubernix.StorePath.{store_path_eq}
use kubernix.Keys.{ObjectKey, substituted}
use kubernix.PathInfo.{PathInfo, RemoteObject}
use kubernix.MemoryStore.{Inner, MemoryStore, partition}
use kubernix.MemoryStore.Methods.{put_path}
use kubernix.MemoryStore.Sharing.{
  put_source, trusted_substituters, record_substituted_path, find_substituted_by_hash_part,
  substituter_negative_cache_hit,
}
use kubernix.MemoryStore.History.{substitute_op, step, effect, step_own}
use kubernix.MemoryStore.Runs.{
  Runs, Runs-refl, Runs-trans, Runs-record_substituted_path, Runs-mark_substituter_miss,
}
use kubernix.World.{World, with_object}
use kubernix.Substitute.{Upstream}
use kubernix.Substitute.Fetch.{Fetched, fetch_one}
use kubernix.Substitute.Resolve.{
  shared_from, any_has, exists_upstream, exists, Hit, record_hit, after_fetch, resolve_found,
  resolve_from_one, or_next, resolve_loop, resolve,
}

-- The path is recorded as pulled through from this source.
pub record IsPulled (inner : Inner) (info : PathInfo) (object : RemoteObject) (url key : Bytes)
    : Type 0 where
  pub info_of : Map.get info.path inner.paths ≡ some info
  pub tier_of : Map.get info.path inner.tiers ≡ some substituted
  pub object_of : Map.get info.path inner.remote ≡ some object
  pub source_of : Map.get info.path inner.substituted_from ≡ some (url, key)

-- The store has changed by operations for the tenant, and a hit is recorded there from its source.
abbrev pub PulledFrom : TenantId → Bytes → Bytes → World → World × Hit → Type 0
PulledFrom t url key w (w', none) = Runs t w.store w'.store
PulledFrom t url key w (w', some (info, object)) =
    Runs t w.store w'.store × IsPulled (partition t w'.store) info object url key

with_object-store :
    (stored : Option (ObjectKey × Bytes)) (w : World) → (with_object stored w).store ≡ w.store
unfolding with_object
with_object-store none w = refl
with_object-store (some object) w = refl

put-IsPulled :
    (info : PathInfo) (object : RemoteObject) (url key : Bytes) (inner : Inner)
    → IsPulled
        (put_source info.path url key (put_path info object substituted inner))
        info
        object
        url
        key
unfolding put_source put_path
put-IsPulled info object url key inner = record {
  info_of = get-insert_self info.path info inner.paths;
  tier_of = get-insert_self info.path substituted inner.tiers;
  object_of = get-insert_self info.path object inner.remote;
  source_of = get-insert_self info.path (url, key) inner.substituted_from;
}

recorded_lem :
    (t : TenantId) (info : PathInfo) (object : RemoteObject) (url key : Bytes) (s : MemoryStore)
    → partition t (record_substituted_path t info object url key s)
      ≡ put_source info.path url key (put_path info object substituted (partition t s))
unfolding step effect
recorded_lem t info object url key s = step_own (substitute_op t info object url key) t s refl

module _ (t : TenantId) (url key : Bytes) (w : World) where
  record_hit_lem :
      (hit : PathInfo × RemoteObject) → PulledFrom t url key w (record_hit t url key hit w)
  unfolding record_hit
  record_hit_lem (info, object) = (
    Runs-record_substituted_path t info object url key w.store,
    subst (λ inner. IsPulled inner info object url key)
        (sym (recorded_lem t info object url key w.store))
        (put-IsPulled info object url key (partition t w.store)),
  )

same_store :
    (t : TenantId) (url key : Bytes) (w v : World) (x : World × Hit)
    → v.store ≡ w.store
    → PulledFrom t url key v x
    → PulledFrom t url key w x
same_store t url key w v (w', none) e p = subst (λ s. Runs t s w'.store) e p
same_store t url key w v (w', some (info, object)) e (r, p) =
    (subst (λ s. Runs t s w'.store) e r, p)

untouched :
    (t : TenantId) (stored : Option (ObjectKey × Bytes)) (w : World)
    → Runs t w.store (with_object stored w).store
untouched t stored w =
    subst (Runs t w.store) (sym (with_object-store stored w)) (Runs-refl t w.store)

after_fetch_lem :
    (t : TenantId) (url key : Bytes) (f : Fetched) (w : World)
    → PulledFrom t url key w (after_fetch t url key f w)
unfolding after_fetch
after_fetch_lem t url key (stored, ok (some hit)) w =
    same_store t url key w (with_object stored w) (record_hit t url key hit (with_object stored w))
      (with_object-store stored w) (record_hit_lem t url key (with_object stored w) hit)
after_fetch_lem t url key (stored, ok none) w = untouched t stored w
after_fetch_lem t url key (stored, err e) w = untouched t stored w
after_fetch_lem t url key (stored, panic) w = untouched t stored w

resolve_found_lem :
    (up : Upstream) (t : TenantId) (hash dir url key : Bytes)
    (found : Option (PathInfo × RemoteObject × Bytes × Bytes)) (w : World)
    → PulledFrom t url key w (resolve_found up t hash dir url key found w)
unfolding resolve_found
resolve_found_lem up t hash dir url key none w =
    after_fetch_lem t url key (fetch_one up url hash dir) w
resolve_found_lem up t hash dir url key (some (info, object, found_url, found_key)) w =
    elim (Bool-cases ((found_url == url) && (found_key == key))) [
      | inl e ↦ rw e (record_hit_lem t url key w (info, object))
      | inr e ↦ rw e (after_fetch_lem t url key (fetch_one up url hash dir) w)
    ]

-- The store has changed by operations for the tenant, and a hit is recorded there from one of the
-- sources.
abbrev pub PulledFromAny : TenantId → List (Bytes × Bytes) → MemoryStore → World × Hit → Type 0
PulledFromAny t sources s (w', none) = Runs t s w'.store
PulledFromAny t sources s (w', some (info, object)) =
    Runs t s w'.store
    × (url : Bytes) × (key : Bytes) × In (url, key) sources
    × IsPulled (partition t w'.store) info object url key

later :
    (t : TenantId) (source : Bytes × Bytes) (rest : List (Bytes × Bytes)) (s r : MemoryStore)
    (x : World × Hit)
    → Runs t s r
    → PulledFromAny t rest r x
    → PulledFromAny t (source ∷ rest) s x
later t source rest s r (w, none) first p = Runs-trans t s r w.store first p
later t source rest s r (w, some (info, object)) first (q, url, key, member, p) =
    (Runs-trans t s r w.store first q, url, key, inr member, p)

or_next_lem :
    (t : TenantId) (url key : Bytes) (rest : List (Bytes × Bytes)) (next : World → World × Hit)
    (w : World) (x : World × Hit)
    → ((v : World) → PulledFromAny t rest v.store (next v))
    → PulledFrom t url key w x
    → PulledFromAny t ((url, key) ∷ rest) w.store (or_next next x)
unfolding or_next
or_next_lem t url key rest next w (v, some (info, object)) h (r, p) = (r, url, key, inl refl, p)
or_next_lem t url key rest next w (v, none) h r =
    later t (url, key) rest w.store v.store (next v) r (h v)

module _ (up : Upstream) (now : ℕ) (t : TenantId) (hash dir : Bytes) where
  resolve_loop_lem :
      (sources : List (Bytes × Bytes)) (w : World)
      → PulledFromAny t sources w.store (resolve_loop up now t hash dir sources w)
  unfolding resolve_loop resolve_from_one
  resolve_loop_lem [] w = Runs-mark_substituter_miss t now hash w.store
  resolve_loop_lem ((url, key) ∷ rest) w =
      or_next_lem t url key rest (resolve_loop up now t hash dir rest) w _ (resolve_loop_lem rest)
        (resolve_found_lem up t hash dir url key (find_substituted_by_hash_part hash w.store) w)

  -- `resolve` changes the store only by operations of `MemoryStore` for that tenant, which leave the
  -- parts of the other tenants as they are and may add to the objects that all share; and a path that
  -- it returns is recorded for the tenant, as substituted, from one of the substituters that the tenant
  -- trusts.
  pub resolve-PulledFromAny :
      (w : World)
      → PulledFromAny t (trusted_substituters t w.store) w.store (resolve up now t hash dir w)
  unfolding resolve
  resolve-PulledFromAny w = elim (Bool-cases (substituter_negative_cache_hit now t hash w.store)) [
    | inl e ↦ rw e (Runs-refl t w.store)
    | inr e ↦ rw e (resolve_loop_lem (trusted_substituters t w.store) w)
  ]

hit_lem :
    (t : TenantId) (sources : List (Bytes × Bytes)) (s : MemoryStore) (x : World × Hit)
    → PulledFromAny t sources s x
    → Runs t s x.0.store
hit_lem t sources s (w, none) p = p
hit_lem t sources s (w, some (info, object)) p = p.0

exists_upstream_lem :
    (up : Upstream) (now : ℕ) (t : TenantId) (hash : Bytes) (sources : List (Bytes × Bytes))
    (s : MemoryStore)
    → Runs t s (exists_upstream up now t hash sources s).0
unfolding exists_upstream
exists_upstream_lem up now t hash [] s = Runs-refl t s
exists_upstream_lem up now t hash (source ∷ rest) s =
    elim (Bool-cases (any_has up hash (source ∷ rest))) [
      | inl e ↦ rw e (Runs-refl t s)
      | inr e ↦ rw e (Runs-mark_substituter_miss t now hash s)
    ]

pub exists-Runs :
    (up : Upstream) (now : ℕ) (t : TenantId) (hash : Bytes) (s : MemoryStore)
    → Runs t s (exists up now t hash s).0
unfolding exists
exists-Runs up now t hash s = elim (Bool-cases (substituter_negative_cache_hit now t hash s)) [
  | inl e ↦ rw e (Runs-refl t s)
  | inr e ↦
      rw e
        (elim (Bool-cases
          (shared_from (trusted_substituters t s) (find_substituted_by_hash_part hash s))) [
            | inl f ↦ rw f (Runs-refl t s)
            | inr f ↦ rw f (exists_upstream_lem up now t hash (trusted_substituters t s) s)
          ])
]

pub resolve-Runs :
    (up : Upstream) (now : ℕ) (t : TenantId) (hash dir : Bytes) (w : World)
    → Runs t w.store (resolve up now t hash dir w).0.store
resolve-Runs up now t hash dir w =
    hit_lem t (trusted_substituters t w.store) w.store (resolve up now t hash dir w)
      (resolve-PulledFromAny up now t hash dir w)
