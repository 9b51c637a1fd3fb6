-- ===== src/Uploads.antt =====
-- crates/server/src/uploads.rs: the keys that a worker is granted pre-signed URLs for.
pub mod Permitted
pub mod Spelled
pub mod Exact
pub mod Isolation
pub mod Minted
pub mod Handler
pub mod Granted
use kubernix.Prelude.{
  ℕ, ◌≡◌, ◌++◌, ◌∷◌, [], Option, none, some, Bytes, Bool, true, false, codes, length, eqb, ◌&&◌,
  ◌||◌, not, if◌then◌else◌, List, strip_prefix, strip_suffix, starts_with, contains_text,
  split_once,
}
use kubernix.Prelude.Eq.{◌==◌}
use kubernix.Prelude.Outcome.{Outcome, ok, err, panic}
use kubernix.TenantId.{TenantId}
use kubernix.StorePath.{StorePath}
use kubernix.Keys.{ObjectKey, object_key_eq, nar_key, log_key, built}
use kubernix.Base32.{is_valid}

-- `nar/<hash>.nar.zst`, with what stands before it stripped: 32 characters of base32.
unfoldable pub is_nar_name : Bytes → Bool
is_nar_name s = elim (strip_prefix s (codes "nar/")) [
  | none ↦ false
  | some r ↦ elim (strip_suffix r (codes ".nar.zst")) [
    | none ↦ false
    | some hash ↦ eqb (length hash) 32 && is_valid hash
  ]
]

unfoldable pub is_shared_verified_key : ObjectKey → Bool
unfolding is_nar_name
is_shared_verified_key key = is_nar_name key.as_str

is_empty : Bytes → Bool
is_empty s = eqb (length s) 0

unfoldable pub is_shared_substituted_key : ObjectKey → Bool
unfolding is_nar_name is_empty
is_shared_substituted_key key = elim (strip_prefix key.as_str (codes "substituted/")) [
  | none ↦ false
  | some rest ↦ elim (split_once b'/' rest) [
    | none ↦ false
    | some (slug, name) ↦ if is_empty slug then false else is_nar_name name
  ]
]

-- `..` in the key, or a `/` at its front.
unfoldable pub escapes : Bytes → Bool
escapes s = contains_text s (codes "..") || starts_with s (codes "/")

-- The namespaces of artifacts behind a tenant's prefix.
unfoldable pub is_artifact : Bool → Bytes → Bool
is_artifact download rest =
    if download
    then starts_with rest (codes "nar/")
      || starts_with rest (codes "untrusted/nar/")
      || starts_with rest (codes "log/")
    else starts_with rest (codes "nar/") || starts_with rest (codes "log/")

unfoldable pub key_is_permitted : ObjectKey → Bool → TenantId → Bool
key_is_permitted key download tenant =
    if escapes key.as_str
    then false
    else if download && (is_shared_verified_key key || is_shared_substituted_key key)
    then true
    else elim (strip_prefix key.as_str (tenant.as_str ++ codes "/")) [
      | none ↦ false
      | some rest ↦ is_artifact download rest
    ]
