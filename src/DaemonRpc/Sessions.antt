-- ===== src/DaemonRpc/Sessions.antt =====
-- The requests of clients' connections (crates/server/src/daemon_rpc.rs), one after the other: each of
-- the handlers that may change the store is a step, and any connection may make the next one.
use kubernix.Prelude.{List, [], ◌∷◌, Bytes, Bool, ◌≡◌, ◌⊎◌}
use kubernix.TenantId.{TenantId}
use kubernix.StorePath.{StorePath}
use kubernix.MemoryStore
use kubernix.MemoryStore.{MemoryStore}
use kubernix.MemoryStore.Sharing.{current_capability_secret}
use kubernix.MemoryStore.History.{Operation, secret_op, run}
use kubernix.MemoryStore.Runs.{Runs}
use kubernix.DaemonRpc.{
  Outside, Connection, OutputInfo, record_outputs, resolve_verified, is_valid_path_anywhere,
}
use kubernix.DaemonRpc.Push.{Push, Session, finalize}
use kubernix.DaemonRpc.Available.{all_outputs_available}
use kubernix.DaemonRpc.Queries.{
  query_path_info, query_valid_paths, query_missing, add_signatures, build_paths,
}

abbrev pub with_store : Session → MemoryStore → Session
with_store session store = record session { world = record session.world { store = store } }

-- One request of the connection, whatever the outside answers to it: a pushed NAR (`addToStoreNar`),
-- `isValidPath`, `queryValidPaths`, `queryPathInfo`, `queryPathFromHashPart`, `queryMissing`,
-- `addSignatures` and `buildPaths`. A `buildDerivation` changes the store in three steps: it asks for
-- its outputs, draws the secret of its token, and records the outputs that a worker reports. The
-- other requests do not change the store.
pub data Step (conn : Connection) (session : Session) : Session → Type 0 where
  pushes : (out : Outside) (push : Push) → Step conn session (finalize out conn push session).0
  asks_path :
      (out : Outside) (path : StorePath)
      → Step conn session
          (with_store session (is_valid_path_anywhere out conn path session.world.store).0)
  asks_paths :
      (out : Outside) (paths : List StorePath)
      → Step conn session
          (with_store session (query_valid_paths out conn paths session.world.store).0)
  asks_info :
      (out : Outside) (path : StorePath)
      → Step conn session
          (record session { world = (query_path_info out conn path session.world).0 })
  asks_hash :
      (out : Outside) (hash : Bytes)
      → Step conn session
          (with_store session (resolve_verified out conn hash session.world.store).0)
  asks_missing :
      (out : Outside) (targets : List StorePath)
      → Step conn session
          (with_store session (query_missing out conn targets session.world.store).0)
  signs :
      (path : StorePath) (sigs : List Bytes)
      → Step conn session (with_store session (add_signatures conn path sigs session.world.store).0)
  builds :
      (out : Outside) (targets : List (StorePath × Bool))
      → Step conn session (with_store session (build_paths out conn targets session.world.store).0)
  asks_outputs :
      (out : Outside) (expected : List (Bytes × StorePath))
      → Step conn session
          (record session { world = (all_outputs_available out conn expected session.world).0 })
  draws :
      (drawn : Bytes)
      → Step conn session
          (with_store session (current_capability_secret drawn session.world.store).0)
  reports :
      (out : Outside) (infos : List OutputInfo) (expected : List (Bytes × StorePath))
      → Step conn session
          (with_store session (record_outputs out conn infos expected session.world.store).0)

-- Requests of connections that `P` holds of.
pub data Reaches (P : Connection → Type 0) : Session → Session → Type 0 where
  done : (session : Session) → Reaches P session session
  more :
      (conn : Connection) (s r q : Session) → P conn → Step conn s r → Reaches P r q → Reaches P s q

-- Operations for the tenant of the connection, or the secret, which is no tenant's.
abbrev Change : Connection → MemoryStore → MemoryStore → Type 0
Change conn s r = Runs conn.tenant s r ⊎ ((drawn : Bytes) × (r ≡ run (secret_op drawn ∷ []) s))

-- The store is the result of operations on the new one.
abbrev pub IsReached : MemoryStore → Type 0
IsReached s = (ops : List Operation) × (s ≡ run ops MemoryStore.new)
