-- ===== src/DaemonRpc.antt =====
-- The handlers of a client's connection in crates/server/src/daemon_rpc.rs, over a store that is
-- `MemoryStore`, whose writes do not fail. A request is given what the outside answers to it
-- (`Outside`); the logging is left out.
pub mod Push
pub mod Effects
pub mod Recorded
pub mod Outputs
pub mod Copied
pub mod Pushed
pub mod Available
pub mod Queries
pub mod Answers
pub mod Sessions
use kubernix.Prelude.{
  ℕ, ◌++◌, ◌∷◌, [], List, Option, none, some, Bytes, Bool, true, false, codes, ◌&&◌, not,
  if◌then◌else◌,
}
use kubernix.Prelude.Eq.{Eq, ◌==◌}
use kubernix.Prelude.Int
use kubernix.Prelude.Outcome.{Outcome, ok, err, panic}
use kubernix.Compression.{Compression}
use kubernix.TenantId.{TenantId}
use kubernix.StorePath.{StorePath, store_path_eq, hash_part, to_full}
use kubernix.Keys.{ObjectKey, Tier, verified, built, is_vouchable}
use kubernix.ContentPath.{Rejection}
use kubernix.PathInfo.{PathInfo, RemoteObject, Hash, sha256}
use kubernix.Signing.{Ed25519, Fingerprint, SignError, sign_path}
use kubernix.MemoryStore.{LocalSigner, MemoryStore}
use kubernix.MemoryStore.Methods.{
  is_valid_path, query_path_from_hash_part, record_path, contains_path,
}
use kubernix.MemoryStore.Sharing.{signer, contains_sig, find_verified_by_hash_part}
use kubernix.Substitute.{Upstream}
use kubernix.Substitute.Resolve.{exists, resolve, Hit}
use kubernix.World.{World}

-- The HTTP servers, the signature scheme, zstd (`none` if it fails), whether an upload succeeds, the
-- seed that a new signing key would have, and the time.
pub record Outside : Type 0 where
  pub up : Upstream
  pub ed : Ed25519
  pub zstd : Bytes → Option Bytes
  pub put_object : ObjectKey → Bytes → Bool
  pub seed : Bytes
  pub now : ℕ

-- What a `LegacyProtocolImpl` is configured with.
pub record Connection : Type 0 where
  pub tenant : TenantId
  pub store_dir : Bytes
  pub has_uploader : Bool
  pub use_substitutes : Bool

pub data RpcError : Type 0 where
  cannot_realise not_in_store unverified_rejected not_a_store_path : StorePath → RpcError
  refused : StorePath → Rejection → RpcError
  no_object_store not_compressed not_uploaded : RpcError

unfoldable pub fingerprint_of : Connection → PathInfo → Fingerprint
fingerprint_of conn info = record {
  path = to_full info.path conn.store_dir;
  nar_hash = info.nar_hash.bytes;
  nar_size = info.nar_size;
  references = info.references;
  store_dir = conn.store_dir;
}

-- What is made of a signature: it is added once, and an error leaves the record as it is.
unfoldable pub with_signature : PathInfo → Outcome SignError Bytes → PathInfo
unfolding contains_sig
with_signature info (ok signature) =
    if not (contains_sig info.sigs signature)
    then record info { sigs = info.sigs ++ (signature ∷ []) }
    else info
with_signature info (err e) = info
with_signature info panic = info

unfoldable pub sign_with :
    Outside → Connection → PathInfo → MemoryStore × Option LocalSigner → MemoryStore × PathInfo
unfolding with_signature sign_path fingerprint_of
sign_with out conn info (s, none) = (s, info)
sign_with out conn info (s, some key) =
    (s, with_signature info (sign_path out.ed key (fingerprint_of conn info)))

unfoldable pub sign_if_vouchable :
    Outside → Connection → PathInfo → Tier → MemoryStore → MemoryStore × PathInfo
unfolding sign_with is_vouchable signer
sign_if_vouchable out conn info tier s =
    if not (is_vouchable tier)
    then (s, info)
    else sign_with out conn info (signer out.seed conn.tenant s)

-- crates/server/src/jobs.rs
pub record OutputInfo : Type 0 where
  pub store_path : StorePath
  pub nar_hash : Bytes
  pub nar_size : ℕ
  pub file_hash : Bytes
  pub file_size : ℕ
  pub key : ObjectKey
  pub compression : Compression
  pub references : List StorePath
  pub deriver : Option StorePath

unfoldable pub output_path_info : OutputInfo → PathInfo
output_path_info info = record {
  path = info.store_path;
  deriver = info.deriver;
  nar_hash = record { hash_type = sha256; bytes = info.nar_hash };
  nar_size = info.nar_size;
  references = info.references;
  registration_time = Int.pos 0;
  ultimate = true;
  sigs = [];
}

unfoldable pub output_object_of : OutputInfo → RemoteObject
output_object_of info = record {
  key = info.key;
  file_size = info.file_size;
  file_hash = info.file_hash;
  compression = info.compression;
}

-- A path is signed as far as the tier allows, and recorded.
unfoldable pub record_signed :
    Outside → Connection → PathInfo → RemoteObject → Tier → MemoryStore → MemoryStore
unfolding sign_if_vouchable record_path
record_signed out conn info object tier s =
    let (s', signed) = sign_if_vouchable out conn info tier s in
    record_path conn.tenant signed object tier s'

unfoldable pub record_each : Outside → Connection → List OutputInfo → MemoryStore → MemoryStore
unfolding record_signed output_path_info output_object_of
record_each out conn [] s = s
record_each out conn (info ∷ infos) s =
    record_each out conn infos
      (record_signed out conn (output_path_info info) (output_object_of info) built s)

unfoldable pub expected_paths : List (Bytes × StorePath) → List StorePath
expected_paths [] = []
expected_paths ((name, path) ∷ rest) = path ∷ expected_paths rest

-- The paths that were reported and are not allowed.
unfoldable pub bogus_paths : List StorePath → List OutputInfo → List StorePath
unfolding contains_path
bogus_paths allowed [] = []
bogus_paths allowed (info ∷ infos) =
    let rest = bogus_paths allowed infos in
    if contains_path allowed info.store_path then rest else info.store_path ∷ rest

unfoldable pub record_unless :
    Outside
    → Connection
    → List OutputInfo
    → List StorePath
    → MemoryStore
    → MemoryStore × Outcome (List StorePath) Unit
unfolding record_each
record_unless out conn infos [] s = (record_each out conn infos s, ok tt)
record_unless out conn infos (path ∷ paths) s = (s, err (path ∷ paths))

unfoldable pub record_outputs :
    Outside
    → Connection
    → List OutputInfo
    → List (Bytes × StorePath)
    → MemoryStore
    → MemoryStore × Outcome (List StorePath) Unit
unfolding record_unless bogus_paths expected_paths
record_outputs out conn infos expected s =
    record_unless out conn infos (bogus_paths (expected_paths expected) infos) s

unfoldable pub copy_verified :
    Outside
    → Connection
    → Option (PathInfo × RemoteObject)
    → MemoryStore
    → MemoryStore × Option StorePath
unfolding record_signed
copy_verified out conn none s = (s, none)
copy_verified out conn (some (info, object)) s =
    (record_signed out conn (record info { sigs = [] }) object verified s, some info.path)

unfoldable pub or_copy :
    Outside → Connection → Bytes → Option StorePath → MemoryStore → MemoryStore × Option StorePath
unfolding copy_verified find_verified_by_hash_part
or_copy out conn hash (some path) s = (s, some path)
or_copy out conn hash none s = copy_verified out conn (find_verified_by_hash_part hash s) s

unfoldable pub resolve_verified :
    Outside → Connection → Bytes → MemoryStore → MemoryStore × Option StorePath
unfolding or_copy query_path_from_hash_part
resolve_verified out conn hash s =
    or_copy out conn hash (query_path_from_hash_part conn.tenant hash s) s

-- `found == Some(path)`
unfoldable pub is_found : StorePath → Option StorePath → Bool
is_found path none = false
is_found path (some found) = found == path

-- The end of `is_valid_path_anywhere`.
unfoldable pub or_exists :
    Outside → Connection → StorePath → Bytes → MemoryStore × Option StorePath → MemoryStore × Bool
unfolding is_found exists
or_exists out conn path hash (s, found) =
    if is_found path found then (s, true) else exists out.up out.now conn.tenant hash s

unfoldable pub valid_by_hash :
    Outside → Connection → StorePath → Option Bytes → MemoryStore → MemoryStore × Bool
unfolding or_exists resolve_verified
valid_by_hash out conn path none s = (s, false)
valid_by_hash out conn path (some hash) s =
    or_exists out conn path hash (resolve_verified out conn hash s)

unfoldable pub is_valid_path_anywhere :
    Outside → Connection → StorePath → MemoryStore → MemoryStore × Bool
unfolding valid_by_hash is_valid_path hash_part
is_valid_path_anywhere out conn path s =
    if is_valid_path conn.tenant path s
    then (s, true)
    else valid_by_hash out conn path (hash_part path) s

unfoldable pub realised : StorePath → MemoryStore × Bool → MemoryStore × Outcome RpcError Unit
realised path (s, true) = (s, ok tt)
realised path (s, false) = (s, err (not_in_store path))

unfoldable pub realise :
    Outside → Connection → StorePath → Bool → MemoryStore → MemoryStore × Outcome RpcError Unit
unfolding realised is_valid_path_anywhere
realise out conn path true s = (s, err (cannot_realise path))
realise out conn path false s = realised path (is_valid_path_anywhere out conn path s)

unfoldable pub hit_path : World × Hit → World × Option StorePath
hit_path (w, none) = (w, none)
hit_path (w, some (info, object)) = (w, some info.path)

unfoldable pub resolve_substituted : Outside → Connection → Bytes → World → World × Option StorePath
unfolding hit_path resolve
resolve_substituted out conn hash w =
    if conn.has_uploader
    then hit_path (resolve out.up out.now conn.tenant hash conn.store_dir w)
    else (w, none)
