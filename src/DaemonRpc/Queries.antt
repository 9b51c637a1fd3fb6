-- ===== src/DaemonRpc/Queries.antt =====
-- The queries of crates/server/src/daemon_rpc.rs that may change the store, `build_paths` and
-- `add_signatures`. `record_access` does nothing in `MemoryStore`.
use kubernix.Prelude.{◌++◌, ◌∷◌, [], List, Option, none, some, Bytes, Bool, false, if◌then◌else◌}
use kubernix.Prelude.Outcome.{Outcome, ok, err, panic}
use kubernix.StorePath.{StorePath, hash_part}
use kubernix.PathInfo.{PathInfo, MissingPaths}
use kubernix.MemoryStore.{MemoryStore}
use kubernix.MemoryStore.Methods
use kubernix.MemoryStore.Methods.{contains_path}
use kubernix.MemoryStore.Sharing
use kubernix.Substitute.Resolve.{exists}
use kubernix.MemoryStore.Methods.{StoreError}
use kubernix.World.{World}
use kubernix.DaemonRpc.{
  Outside, Connection, RpcError, is_found, resolve_verified, realise, resolve_substituted,
}

-- The path is looked up again if something was resolved.
unfoldable pub look_again :
    Connection → StorePath → World × Option StorePath → World × Option PathInfo
unfolding Methods.query_path_info
look_again conn path (w, none) = (w, none)
look_again conn path (w, some found) = (w, Methods.query_path_info conn.tenant path w.store)

unfoldable pub or_verified :
    Outside
    → Connection
    → StorePath
    → Option Bytes
    → Option PathInfo
    → World
    → World × Option PathInfo
unfolding look_again resolve_verified
or_verified out conn path hash (some info) w = (w, some info)
or_verified out conn path none none w = (w, none)
or_verified out conn path (some hash) none w =
    let (s, found) = resolve_verified out conn hash w.store in
    look_again conn path (record w { store = s }, found)

unfoldable pub or_substituted :
    Outside
    → Connection
    → StorePath
    → Option Bytes
    → World × Option PathInfo
    → World × Option PathInfo
unfolding look_again resolve_substituted
or_substituted out conn path hash (w, some info) = (w, some info)
or_substituted out conn path none (w, none) = (w, none)
or_substituted out conn path (some hash) (w, none) =
    look_again conn path (resolve_substituted out conn hash w)

unfoldable pub query_path_info : Outside → Connection → StorePath → World → World × Option PathInfo
unfolding or_verified or_substituted Methods.query_path_info hash_part
query_path_info out conn path w = or_substituted out conn path (hash_part path) (
    or_verified out conn path (hash_part path) (Methods.query_path_info conn.tenant path w.store) w)

-- `resolve_verified(hash_part).await.as_ref() == Some(path)`
unfoldable pub copies_path :
    Outside → Connection → StorePath → Option Bytes → MemoryStore → MemoryStore × Bool
unfolding is_found resolve_verified
copies_path out conn path none s = (s, false)
copies_path out conn path (some hash) s =
    let (s', found) = resolve_verified out conn hash s in (s', is_found path found)

unfoldable pub push_if :
    List StorePath → StorePath → MemoryStore × Bool → MemoryStore × List StorePath
push_if valid path (s, found) = (s, if found then valid ++ path ∷ [] else valid)

unfoldable pub add_path :
    Outside → Connection → List StorePath → StorePath → MemoryStore → MemoryStore × List StorePath
unfolding copies_path push_if contains_path hash_part
add_path out conn valid path s =
    if contains_path valid path
    then (s, valid)
    else push_if valid path (copies_path out conn path (hash_part path) s)

-- The loop over the paths, with those that are known to be valid.
unfoldable pub add_paths :
    Outside
    → Connection
    → List StorePath
    → List StorePath
    → MemoryStore
    → MemoryStore × List StorePath
unfolding add_path
add_paths out conn [] valid s = (s, valid)
add_paths out conn (path ∷ paths) valid s =
    let (s', more) = add_path out conn valid path s in add_paths out conn paths more s'

unfoldable pub query_valid_paths :
    Outside → Connection → List StorePath → MemoryStore → MemoryStore × List StorePath
unfolding add_paths Methods.query_valid_paths
query_valid_paths out conn paths s =
    add_paths out conn paths (Methods.query_valid_paths conn.tenant paths s) s

unfoldable pub exists_target :
    Outside → Connection → Option Bytes → MemoryStore → MemoryStore × Bool
unfolding exists
exists_target out conn none s = (s, false)
exists_target out conn (some hash) s = exists out.up out.now conn.tenant hash s

-- The loop over `will_build`: what is still to be built, and what is to be substituted.
unfoldable pub reclassify :
    Outside
    → Connection
    → List StorePath
    → MemoryStore
    → MemoryStore × List StorePath × List StorePath
unfolding exists_target hash_part
reclassify out conn [] s = (s, [], [])
reclassify out conn (target ∷ targets) s =
    let (s', found) = exists_target out conn (hash_part target) s in
    let (s'', build, substitute) = reclassify out conn targets s' in
    (
      s'',
      if found then build else target ∷ build,
      if found then target ∷ substitute else substitute,
    )

unfoldable pub query_missing :
    Outside → Connection → List StorePath → MemoryStore → MemoryStore × MissingPaths
unfolding reclassify Sharing.query_missing
query_missing out conn targets s =
    let missing = Sharing.query_missing conn.tenant targets s in
    let (s', build, substitute) = reclassify out conn missing.will_build s in
    (
      s',
      record missing {
        will_build = build;
        will_substitute = missing.will_substitute ++ substitute;
      },
    )

unfoldable pub add_signatures :
    Connection → StorePath → List Bytes → MemoryStore → MemoryStore × Outcome StoreError (Unit {0})
unfolding Sharing.add_signatures
add_signatures conn = Sharing.add_signatures conn.tenant

-- An error ends the loop.
unfoldable pub and_next :
    (MemoryStore → MemoryStore × Outcome RpcError Unit)
    → MemoryStore × Outcome RpcError Unit
    → MemoryStore × Outcome RpcError Unit
and_next next (s, ok _) = next s
and_next next (s, err e) = (s, err e)
and_next next (s, panic) = (s, panic)

unfoldable pub build_paths :
    Outside
    → Connection
    → List (StorePath × Bool)
    → MemoryStore
    → MemoryStore × Outcome RpcError Unit
unfolding and_next realise
build_paths out conn [] s = (s, ok tt)
build_paths out conn ((path, built) ∷ targets) s =
    and_next (build_paths out conn targets) (realise out conn path built s)
