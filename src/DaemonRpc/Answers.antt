-- ===== src/DaemonRpc/Answers.antt =====
-- The requests in `Queries` (crates/server/src/daemon_rpc.rs) change the store only by operations for
-- the tenant of their connection.
use kubernix.Prelude.{◌∷◌, [], List, Option, none, some, Bytes, Bool, if-both}
use kubernix.Prelude.Outcome.{Outcome, ok, err, panic}
use kubernix.StorePath.{StorePath, hash_part}
use kubernix.PathInfo.{PathInfo}
use kubernix.MemoryStore.{MemoryStore}
use kubernix.MemoryStore.Methods
use kubernix.MemoryStore.Methods.{contains_path}
use kubernix.MemoryStore.Sharing
use kubernix.MemoryStore.Runs.{Runs, Runs-refl, Runs-trans, Runs-add_signatures}
use kubernix.Substitute.Sources.{exists-Runs}
use kubernix.MemoryStore.Methods.{StoreError}
use kubernix.World.{World}
use kubernix.DaemonRpc.{Outside, Connection, RpcError}
use kubernix.DaemonRpc.Effects.{resolve_verified-Runs, realise-Runs}
use kubernix.DaemonRpc.Available.{resolve_substituted-Runs}
use kubernix.DaemonRpc.Queries.{
  look_again, or_verified, or_substituted, query_path_info, copies_path, push_if, add_path,
  add_paths, query_valid_paths, exists_target, reclassify, query_missing, and_next, build_paths,
  add_signatures,
}

module _ (out : Outside) (conn : Connection) where
  look_again-Runs :
      (path : StorePath) (s : MemoryStore) (x : World × Option StorePath)
      → Runs conn.tenant s x.0.store
      → Runs conn.tenant s (look_again conn path x).0.store
  unfolding look_again
  look_again-Runs path s (w, none) r = r
  look_again-Runs path s (w, some found) r = r

  or_verified-Runs :
      (path : StorePath) (hash : Option Bytes) (info : Option PathInfo) (w : World)
      → Runs conn.tenant w.store (or_verified out conn path hash info w).0.store
  unfolding or_verified
  or_verified-Runs path hash (some info) w = Runs-refl conn.tenant w.store
  or_verified-Runs path none none w = Runs-refl conn.tenant w.store
  or_verified-Runs path (some hash) none w =
      look_again-Runs path w.store _ (resolve_verified-Runs out conn hash w.store)

  or_substituted-Runs :
      (path : StorePath) (hash : Option Bytes) (s : MemoryStore) (x : World × Option PathInfo)
      → Runs conn.tenant s x.0.store
      → Runs conn.tenant s (or_substituted out conn path hash x).0.store
  unfolding or_substituted
  or_substituted-Runs path hash s (w, some info) r = r
  or_substituted-Runs path none s (w, none) r = r
  or_substituted-Runs path (some hash) s (w, none) r =
      look_again-Runs path s _
        (Runs-trans conn.tenant s w.store _ r (resolve_substituted-Runs out conn hash w))

  pub query_path_info-Runs :
      (path : StorePath) (w : World)
      → Runs conn.tenant w.store (query_path_info out conn path w).0.store
  unfolding query_path_info
  query_path_info-Runs path w =
      or_substituted-Runs path (hash_part path) w.store _
        (or_verified-Runs path (hash_part path) _ w)

  copies_path-Runs :
      (path : StorePath) (hash : Option Bytes) (s : MemoryStore)
      → Runs conn.tenant s (copies_path out conn path hash s).0
  unfolding copies_path
  copies_path-Runs path none s = Runs-refl conn.tenant s
  copies_path-Runs path (some hash) s = resolve_verified-Runs out conn hash s

  add_path-Runs :
      (valid : List StorePath) (path : StorePath) (s : MemoryStore)
      → Runs conn.tenant s (add_path out conn valid path s).0
  unfolding add_path push_if
  add_path-Runs valid path s =
      if-both (λ (x : MemoryStore × List StorePath). Runs conn.tenant s x.0)
        (contains_path valid path) (Runs-refl conn.tenant s)
        (copies_path-Runs path (hash_part path) s)

  add_paths-Runs :
      (paths valid : List StorePath) (s : MemoryStore)
      → Runs conn.tenant s (add_paths out conn paths valid s).0
  unfolding add_paths
  add_paths-Runs [] valid s = Runs-refl conn.tenant s
  add_paths-Runs (path ∷ paths) valid s =
      let (s', more) = add_path out conn valid path s in
      Runs-trans conn.tenant s s' _ (add_path-Runs valid path s) (add_paths-Runs paths more s')

  pub query_valid_paths-Runs :
      (paths : List StorePath) (s : MemoryStore)
      → Runs conn.tenant s (query_valid_paths out conn paths s).0
  unfolding query_valid_paths
  query_valid_paths-Runs paths s =
      add_paths-Runs paths (Methods.query_valid_paths conn.tenant paths s) s

  exists_target-Runs :
      (hash : Option Bytes) (s : MemoryStore) → Runs conn.tenant s (exists_target out conn hash s).0
  unfolding exists_target
  exists_target-Runs none s = Runs-refl conn.tenant s
  exists_target-Runs (some hash) s = exists-Runs out.up out.now conn.tenant hash s

  reclassify-Runs :
      (targets : List StorePath) (s : MemoryStore)
      → Runs conn.tenant s (reclassify out conn targets s).0
  unfolding reclassify
  reclassify-Runs [] s = Runs-refl conn.tenant s
  reclassify-Runs (target ∷ targets) s =
      let (s', found) = exists_target out conn (hash_part target) s in
      Runs-trans conn.tenant s s' _ (exists_target-Runs (hash_part target) s)
        (reclassify-Runs targets s')

  pub query_missing-Runs :
      (targets : List StorePath) (s : MemoryStore)
      → Runs conn.tenant s (query_missing out conn targets s).0
  unfolding query_missing
  query_missing-Runs targets s =
      reclassify-Runs (Sharing.query_missing conn.tenant targets s).will_build s

  and_next-Runs :
      (next : MemoryStore → MemoryStore × Outcome RpcError Unit) (s : MemoryStore)
      (x : MemoryStore × Outcome RpcError Unit)
      → ((r : MemoryStore) → Runs conn.tenant r (next r).0)
      → Runs conn.tenant s x.0
      → Runs conn.tenant s (and_next next x).0
  unfolding and_next
  and_next-Runs next s (s', ok _) h r = Runs-trans conn.tenant s s' _ r (h s')
  and_next-Runs next s (s', err e) h r = r
  and_next-Runs next s (s', panic) h r = r

  pub build_paths-Runs :
      (targets : List (StorePath × Bool)) (s : MemoryStore)
      → Runs conn.tenant s (build_paths out conn targets s).0
  unfolding build_paths
  build_paths-Runs [] s = Runs-refl conn.tenant s
  build_paths-Runs ((path, built) ∷ targets) s =
      and_next-Runs (build_paths out conn targets) s _ (build_paths-Runs targets)
        (realise-Runs out conn path built s)

pub add_signatures-Runs :
    (conn : Connection) (path : StorePath) (sigs : List Bytes) (s : MemoryStore)
    → Runs conn.tenant s (add_signatures conn path sigs s).0
unfolding add_signatures
add_signatures-Runs conn path sigs s = Runs-add_signatures conn.tenant path sigs s
