-- ===== src/PathInfo.antt =====
-- The records of crates/server/src/store.rs that describe a path and its object.
use kubernix.Prelude.{ℕ, Option, Bytes, Bool, List, codes, ◌++◌}
use kubernix.ContentPath.{hex}
use kubernix.Prelude.Int.{ℤ}
use kubernix.Compression.{Compression}
use kubernix.StorePath.{StorePath}
use kubernix.Keys.{ObjectKey}

pub data HashType : Type 0 where
  md5 sha1 sha256 sha512 : HashType

pub record Hash : Type 0 where
  pub hash_type : HashType
  pub bytes : Bytes

pub record PathInfo : Type 0 where
  pub path : StorePath
  pub deriver : Option StorePath
  pub nar_hash : Hash
  pub nar_size : ℕ
  pub references : List StorePath
  pub registration_time : ℤ
  pub ultimate : Bool
  pub sigs : List Bytes

pub record RemoteObject : Type 0 where
  pub key : ObjectKey
  pub file_size : ℕ
  pub file_hash : Bytes
  pub compression : Compression

pub record MissingPaths : Type 0 where
  pub will_build : List StorePath
  pub will_substitute : List StorePath
  pub unknown : List StorePath
  pub download_size : ℕ
  pub nar_size : ℕ

unfoldable pub algo_name : HashType → Bytes
algo_name md5 = codes "md5"
algo_name sha1 = codes "sha1"
algo_name sha256 = codes "sha256"
algo_name sha512 = codes "sha512"

unfoldable pub to_wire_string : Hash → Bytes
to_wire_string hash = algo_name hash.hash_type ++ (codes ":" ++ hex hash.bytes)
