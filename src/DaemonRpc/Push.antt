-- ===== src/DaemonRpc/Push.antt =====
-- `NarSink::finalize` of crates/server/src/daemon_rpc.rs: a path that a client pushes.
use kubernix.Prelude.{
  ℕ, ◌++◌, ◌∷◌, [], List, Option, none, some, Bytes, Bool, false, length, ◌&&◌, not, if◌then◌else◌,
}
use kubernix.Prelude.Eq.{◌==◌}
use kubernix.Prelude.Outcome.{Outcome, ok, err, panic}
use kubernix.Compression.{Compression}
use kubernix.StorePath.{StorePath}
use kubernix.Keys.{ObjectKey, Tier, tier_eq, verified, quarantined, is_vouchable, nar_key}
use kubernix.ContentPath.{ContentAddress, Rejection}
use kubernix.ContentPath.Check.{verify}
use kubernix.PathInfo.{PathInfo, RemoteObject, to_wire_string}
use kubernix.MemoryStore.{MemoryStore}
use kubernix.MemoryStore.Methods.{output_object, object_known}
use kubernix.MemoryStore.Sharing
use kubernix.MemoryStore.Sharing.{reject_unverified_pushes}
use kubernix.World.{World}
use kubernix.DaemonRpc.{
  Outside, Connection, RpcError, unverified_rejected, not_a_store_path, refused, no_object_store,
  not_compressed, not_uploaded, record_signed,
}

-- crates/server/src/jobs.rs
pub record InputRef : Type 0 where
  pub store_path : StorePath
  pub key : ObjectKey
  pub references : List StorePath
  pub deriver : StorePath
  pub compression : Compression
  pub nar_hash : Bytes
  pub nar_size : ℕ

-- What a `NarSink` has when it is finalized.
pub record Push : Type 0 where
  pub info : PathInfo
  pub ca : Option ContentAddress
  pub nar : Bytes

-- The world, and what the connection has staged for its builds.
pub record Session : Type 0 where
  pub world : World
  pub staged : List InputRef

abbrev pub Finalized : Type 0
Finalized = Session × Outcome RpcError Unit

-- The tier of a push, on the result of the check of its content address.
unfoldable pub checked_tier : StorePath → Outcome Rejection (Unit {0}) → Outcome RpcError Tier
checked_tier path (ok _) = ok verified
checked_tier path (err rejection) = err (refused path rejection)
checked_tier path panic = panic

unfoldable pub push_tier : Outside → Connection → Push → MemoryStore → Outcome RpcError Tier
unfolding checked_tier verify reject_unverified_pushes
push_tier out conn push s = elim push.ca [
  | some ca ↦
      checked_tier push.info.path
        (verify out.up.sha256 conn.store_dir push.info.path ca push.info.references push.nar)
  | none ↦
      if reject_unverified_pushes conn.tenant s
      then err (unverified_rejected push.info.path)
      else ok quarantined
]

-- A path that is vouched for is not taken from a push that is not verified.
unfoldable pub keeps_existing : Option Tier → Tier → Bool
unfolding is_vouchable
keeps_existing none tier = false
keeps_existing (some existing) tier = is_vouchable existing && not (tier == verified)

unfoldable pub deriver_or_default : Option StorePath → StorePath
deriver_or_default none = record { as_str = [] }
deriver_or_default (some deriver) = deriver

unfoldable pub input_ref : PathInfo → ObjectKey → Compression → InputRef
unfolding deriver_or_default to_wire_string
input_ref info key compression = record {
  store_path = info.path;
  key = key;
  references = info.references;
  deriver = deriver_or_default info.deriver;
  compression = compression;
  nar_hash = to_wire_string info.nar_hash;
  nar_size = info.nar_size;
}

unfoldable pub stage : InputRef → Session → Session
stage input session = record session { staged = session.staged ++ (input ∷ []) }

-- `.map(|o| (o.key, o.compression)).unwrap_or((ObjectKey::default(), Compression::Zstd))`
unfoldable pub existing_ref : PathInfo → Option RemoteObject → InputRef
unfolding input_ref
existing_ref info none = input_ref info (record { as_str = [] }) Compression.zstd
existing_ref info (some object) = input_ref info object.key object.compression

unfoldable pub keep_existing : Connection → Push → Session → Finalized
unfolding stage existing_ref output_object
keep_existing conn push session = (
  stage (existing_ref push.info (output_object conn.tenant push.info.path session.world.store))
      session,
  ok tt,
)

-- The end of `finalize`: the path is signed, recorded and staged.
unfoldable pub record_push :
    Outside → Connection → Push → Tier → ObjectKey → Bytes → Session → Finalized
unfolding record_signed stage input_ref
record_push out conn push tier key compressed session =
    let object : RemoteObject = record {
      key = key;
      file_size = length compressed;
      file_hash = out.up.sha256 compressed;
      compression = Compression.zstd;
    } in
    let store = record_signed out conn push.info object tier session.world.store in
    (
      stage (input_ref push.info key Compression.zstd)
          (record session { world = record session.world { store = store } }),
      ok tt,
    )

-- The upload, which is left out for a verified object that is there.
unfoldable pub upload_push :
    Outside → Connection → Push → Tier → ObjectKey → Bytes → Session → Finalized
unfolding record_push object_known
upload_push out conn push tier key compressed session =
    if (tier == verified) && object_known key session.world.store
    then record_push out conn push tier key compressed session
    else if out.put_object key compressed
    then record_push out conn push tier key compressed (record session {
      world = record session.world { bucket = (key, compressed) ∷ session.world.bucket };
    })
    else (session, err not_uploaded)

unfoldable pub compress_push :
    Outside → Connection → Push → Tier → ObjectKey → Option Bytes → Session → Finalized
unfolding upload_push
compress_push out conn push tier key none session = (session, err not_compressed)
compress_push out conn push tier key (some compressed) session =
    upload_push out conn push tier key compressed session

unfoldable pub key_push :
    Outside → Connection → Push → Tier → Option ObjectKey → Session → Finalized
unfolding compress_push
key_push out conn push tier none session = (session, err (not_a_store_path push.info.path))
key_push out conn push tier (some key) session =
    compress_push out conn push tier key (out.zstd push.nar) session

unfoldable pub accept_push : Outside → Connection → Push → Tier → Session → Finalized
unfolding key_push nar_key
accept_push out conn push tier session =
    if conn.has_uploader
    then key_push out conn push tier (nar_key conn.tenant tier push.info.path) session
    else (session, err no_object_store)

unfoldable pub finalize_as :
    Outside → Connection → Push → Outcome RpcError Tier → Session → Finalized
unfolding keep_existing accept_push keeps_existing Sharing.tier
finalize_as out conn push (err e) session = (session, err e)
finalize_as out conn push panic session = (session, panic)
finalize_as out conn push (ok tier) session =
    if keeps_existing (Sharing.tier conn.tenant push.info.path session.world.store) tier
    then keep_existing conn push session
    else accept_push out conn push tier session

unfoldable pub finalize : Outside → Connection → Push → Session → Finalized
unfolding finalize_as push_tier
finalize out conn push session =
    finalize_as out conn push (push_tier out conn push session.world.store) session
