-- ===== src/MemoryStore/Sharing.antt =====
-- The methods of `MemoryStore` (crates/server/src/store.rs) about signatures, substituters, the
-- lookups across tenants and the capability secret.
use kubernix.Prelude.{
  ℕ, ◌-◌, ◌*◌, Option, none, some, Bool, true, false, Bytes, List, [], ◌∷◌, ◌++◌, if◌then◌else◌,
  ltb, eqb, not, codes,
}
use kubernix.Prelude.Eq.{◌==◌, nat_eq, list_eq}
use kubernix.Prelude.Map
use kubernix.Prelude.Map.{Map}
use kubernix.Prelude.Outcome.{Outcome, ok, err}
use kubernix.TenantId.{TenantId, tenant_id_eq}
use kubernix.StorePath.{StorePath, store_path_eq}
use kubernix.Keys.{Tier, tier_eq, verified, substituted}
use kubernix.PathInfo.{PathInfo, RemoteObject, MissingPaths}
use kubernix.MemoryStore.{LocalSigner, Inner, MemoryStore, read, write, update}
use kubernix.MemoryStore.Methods.{StoreError, not_found, has_hash_part, record_path}

-- `.iter().find(|(p, _)| p.hash_part() == Some(hash_part))`
unfoldable pub find_entry : Bytes → List (StorePath × PathInfo) → Option (StorePath × PathInfo)
find_entry hash [] = none
find_entry hash (entry ∷ rest) =
    if has_hash_part hash entry.0 then some entry else find_entry hash rest

-- `partition.tiers.get(path) == Some(&tier)`
unfoldable pub has_tier : Tier → StorePath → Inner → Bool
has_tier tier path inner = elim (Map.get path inner.tiers) [ none ↦ false | some t ↦ t == tier ]

-- The body of the loop of `find_verified_by_hash_part`: `none` goes on with the next partition.
unfoldable pub verified_in : Bytes → Inner → Option (PathInfo × RemoteObject)
verified_in hash inner = elim (find_entry hash (Map.iter inner.paths)) [
  | none ↦ none
  | some (path, info) ↦
      if not (has_tier verified path inner)
      then none
      else elim (Map.get path inner.remote) [ none ↦ none | some object ↦ some (info, object) ]
]

unfoldable pub first_of_partitions :
    {A : Type 0} → (Inner → Option A) → List (TenantId × Inner) → Option A
first_of_partitions f [] = none
first_of_partitions f ((t, inner) ∷ rest) = elim (f inner) [
  | some a ↦ some a
  | none ↦ first_of_partitions f rest
]

unfoldable pub find_verified_by_hash_part : Bytes → MemoryStore → Option (PathInfo × RemoteObject)
find_verified_by_hash_part hash s = first_of_partitions (verified_in hash) (Map.iter s.inner)

-- The sigs of a path after `add_signatures`: each is added once.
unfoldable pub contains_sig : List Bytes → Bytes → Bool
contains_sig [] sig = false
contains_sig (x ∷ xs) sig = if x == sig then true else contains_sig xs sig

unfoldable pub push_sigs : List Bytes → List Bytes → List Bytes
push_sigs old [] = old
push_sigs old (sig ∷ sigs) =
    push_sigs (if not (contains_sig old sig) then old ++ sig ∷ [] else old) sigs

-- The signatures of the path's record, if there is one.
unfoldable pub sign_found :
    StorePath → List Bytes → Option PathInfo → Inner → Inner × Outcome StoreError (Unit {0})
sign_found path sigs none inner = (inner, err (not_found path.as_str))
sign_found path sigs (some info) inner = (
  record inner {
    paths = Map.insert path (record info { sigs = push_sigs info.sigs sigs }) inner.paths;
  },
  ok tt,
)

unfoldable pub sign_path : StorePath → List Bytes → Inner → Inner × Outcome StoreError (Unit {0})
sign_path path sigs inner = sign_found path sigs (Map.get path inner.paths) inner

unfoldable pub add_signatures :
    TenantId → StorePath → List Bytes → MemoryStore → MemoryStore × Outcome StoreError (Unit {0})
unfolding write
add_signatures tenant path sigs = write tenant (sign_path path sigs)

unfoldable pub filter_missing : Map StorePath PathInfo → List StorePath → List StorePath
filter_missing known [] = []
filter_missing known (p ∷ ps) =
    let rest = filter_missing known ps in if not (Map.contains_key p known) then p ∷ rest else rest

unfoldable pub query_missing : TenantId → List StorePath → MemoryStore → MissingPaths
unfolding read
query_missing tenant targets = read tenant λ inner. record {
  will_build = filter_missing inner.paths targets;
  will_substitute = [];
  unknown = [];
  download_size = 0;
  nar_size = 0;
}

unfoldable pub tier : TenantId → StorePath → MemoryStore → Option Tier
unfolding read
tier tenant path = read tenant (λ inner. Map.get path inner.tiers)

-- `key_name_for` of crates/signing/src/lib.rs
unfoldable pub key_name_for : TenantId → Bytes
key_name_for tenant = codes "kubernix-" ++ (tenant.as_str ++ codes "-1")

-- `signer.get_or_insert_with(…)`, given the seed that a new key would have.
-- `get_or_insert_with` on the tenant's key.
unfoldable pub give_found :
    Bytes → TenantId → Option LocalSigner → Inner → Inner × Option LocalSigner
give_found seed tenant (some key) inner = (inner, some key)
give_found seed tenant none inner =
    let key : LocalSigner = record { name = key_name_for tenant; key = seed } in
    (record inner { signer = some key }, some key)

unfoldable pub give_signer : Bytes → TenantId → Inner → Inner × Option LocalSigner
give_signer seed tenant inner = give_found seed tenant inner.signer inner

unfoldable pub signer : Bytes → TenantId → MemoryStore → MemoryStore × Option LocalSigner
unfolding write
signer seed tenant = write tenant (give_signer seed tenant)

unfoldable pub reject_unverified_pushes : TenantId → MemoryStore → Bool
unfolding read
reject_unverified_pushes tenant =
    read tenant (λ inner. elim inner.reject_unverified_pushes [ none ↦ true | some b ↦ b ])

unfoldable pub trusted_substituters : TenantId → MemoryStore → List (Bytes × Bytes)
unfolding read
trusted_substituters tenant = read tenant (λ inner. inner.substituters)

unfoldable pub put_source : StorePath → Bytes → Bytes → Inner → Inner
put_source path source_url source_key inner = record inner {
  substituted_from = Map.insert path (source_url, source_key) inner.substituted_from;
}

unfoldable pub record_substituted_path :
    TenantId → PathInfo → RemoteObject → Bytes → Bytes → MemoryStore → MemoryStore
unfolding update
record_substituted_path tenant info object source_url source_key s =
    update tenant (put_source info.path source_url source_key)
      (record_path tenant info object substituted s)

-- The body of the loop of `find_substituted_by_hash_part`.
unfoldable pub substituted_in : Bytes → Inner → Option (PathInfo × RemoteObject × Bytes × Bytes)
substituted_in hash inner = elim (find_entry hash (Map.iter inner.paths)) [
  | none ↦ none
  | some (path, info) ↦
      if not (has_tier substituted path inner) then none else elim (Map.get path inner.remote) [
        | none ↦ none
        | some object ↦ elim (Map.get path inner.substituted_from) [
          | none ↦ none
          | some (url, key) ↦ some (info, object, url, key)
        ]
      ]
]

unfoldable pub find_substituted_by_hash_part :
    Bytes → MemoryStore → Option (PathInfo × RemoteObject × Bytes × Bytes)
find_substituted_by_hash_part hash s = first_of_partitions (substituted_in hash) (Map.iter s.inner)

unfoldable pub substituted_source : TenantId → StorePath → MemoryStore → Option (Bytes × Bytes)
unfolding read
substituted_source tenant path = read tenant (λ inner. Map.get path inner.substituted_from)

-- 600 seconds
abbrev pub negative_cache_ttl : ℕ
negative_cache_ttl = 600 * 1_000_000_000

unfoldable pub substituter_negative_cache_hit : ℕ → TenantId → Bytes → MemoryStore → Bool
unfolding read
substituter_negative_cache_hit now tenant hash = read tenant λ inner.
    elim (Map.get hash inner.negative_cache) [
      | none ↦ false
      | some at ↦ ltb (now - at) negative_cache_ttl
    ]

unfoldable pub put_miss : ℕ → Bytes → Inner → Inner
put_miss now hash inner = record inner { negative_cache = Map.insert hash now inner.negative_cache }

unfoldable pub mark_substituter_miss : ℕ → TenantId → Bytes → MemoryStore → MemoryStore
unfolding update
mark_substituter_miss now tenant hash = update tenant (put_miss now hash)

-- `get_or_insert_with(rand::random)`, given the secret that would be drawn.
unfoldable pub current_capability_secret : Bytes → MemoryStore → MemoryStore × (ℕ × Bytes)
current_capability_secret drawn s = elim s.capability_secret [
  | some secret ↦ (s, (0, secret))
  | none ↦ (record s { capability_secret = some drawn }, (0, drawn))
]

unfoldable pub capability_secret : ℕ → MemoryStore → Option Bytes
capability_secret kid s = if not (eqb kid 0) then none else s.capability_secret
