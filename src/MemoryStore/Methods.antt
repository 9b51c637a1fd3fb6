-- ===== src/MemoryStore/Methods.antt =====
-- The methods of `MemoryStore` (crates/server/src/store.rs).
use kubernix.Prelude.{Option, none, some, Bool, true, false, Bytes, List, [], ◌∷◌, if◌then◌else◌}
use kubernix.Prelude.Eq.{◌==◌, nat_eq, list_eq}
use kubernix.Prelude.Map
use kubernix.Prelude.Map.{Map}
use kubernix.TenantId.{TenantId, tenant_id_eq}
use kubernix.StorePath.{StorePath, store_path_eq, hash_part}
use kubernix.Keys.{ObjectKey, object_key_eq, Tier, tier_eq}
use kubernix.PathInfo.{PathInfo, RemoteObject}
use kubernix.MemoryStore.{Inner, MemoryStore, read, update}

pub data StoreError : Type 0 where
  not_found elsewhere unsupported other : Bytes → StoreError

unfoldable pub is_valid_path : TenantId → StorePath → MemoryStore → Bool
unfolding read
is_valid_path tenant path = read tenant (λ inner. Map.contains_key path inner.paths)

unfoldable pub filter_valid : Map StorePath PathInfo → List StorePath → List StorePath
filter_valid known [] = []
filter_valid known (p ∷ ps) =
    let rest = filter_valid known ps in if Map.contains_key p known then p ∷ rest else rest

unfoldable pub query_valid_paths : TenantId → List StorePath → MemoryStore → List StorePath
unfolding read
query_valid_paths tenant paths = read tenant (λ inner. filter_valid inner.paths paths)

unfoldable pub query_all_valid_paths : TenantId → MemoryStore → List StorePath
unfolding read
query_all_valid_paths tenant = read tenant (λ inner. Map.keys inner.paths)

unfoldable pub query_path_info : TenantId → StorePath → MemoryStore → Option PathInfo
unfolding read
query_path_info tenant path = read tenant (λ inner. Map.get path inner.paths)

-- `p.hash_part() == Some(hash_part)`
unfoldable pub has_hash_part : Bytes → StorePath → Bool
has_hash_part hash path = elim (hash_part path) [ none ↦ false | some h ↦ h == hash ]

unfoldable pub find_hash_part : Bytes → List StorePath → Option StorePath
find_hash_part hash [] = none
find_hash_part hash (p ∷ ps) = if has_hash_part hash p then some p else find_hash_part hash ps

unfoldable pub query_path_from_hash_part : TenantId → Bytes → MemoryStore → Option StorePath
unfolding read
query_path_from_hash_part tenant hash =
    read tenant (λ inner. find_hash_part hash (Map.keys inner.paths))

unfoldable pub contains_path : List StorePath → StorePath → Bool
contains_path [] path = false
contains_path (r ∷ rs) path = if r == path then true else contains_path rs path

unfoldable pub referrers_in : StorePath → List (StorePath × PathInfo) → List StorePath
referrers_in path [] = []
referrers_in path ((p, info) ∷ rest) =
    let others = referrers_in path rest in
    if contains_path info.references path then info.path ∷ others else others

unfoldable pub query_referrers : TenantId → StorePath → MemoryStore → List StorePath
unfolding read
query_referrers tenant path = read tenant (λ inner. referrers_in path (Map.iter inner.paths))

-- The three insertions of `record_path` into the tenant's partition.
unfoldable pub put_path : PathInfo → RemoteObject → Tier → Inner → Inner
put_path info object tier inner = record inner {
  remote = Map.insert info.path object inner.remote;
  tiers = Map.insert info.path tier inner.tiers;
  paths = Map.insert info.path info inner.paths;
}

-- `objects.entry(object.key.clone()).or_insert_with(|| object.clone())`
unfoldable pub put_object : RemoteObject → MemoryStore → MemoryStore
put_object object s = record s { objects = Map.or_insert object.key object s.objects }

unfoldable pub record_path : TenantId → PathInfo → RemoteObject → Tier → MemoryStore → MemoryStore
unfolding update
record_path tenant info object tier s =
    update tenant (put_path info object tier) (put_object object s)

unfoldable pub output_object : TenantId → StorePath → MemoryStore → Option RemoteObject
unfolding read
output_object tenant path = read tenant (λ inner. Map.get path inner.remote)

unfoldable pub object_known : ObjectKey → MemoryStore → Bool
object_known key s = Map.contains_key key s.objects
