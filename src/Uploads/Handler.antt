-- ===== src/Uploads/Handler.antt =====
-- `UploadSigner::handle` of crates/server/src/uploads.rs. The decoding of the message, the
-- verification of the token and the signing of a URL are other components' or other packages': they
-- are parameters, and each may fail.
use kubernix.Prelude.{
  ◌++◌, ◌∷◌, [], Option, none, some, Bytes, Bool, false, ◌&&◌, ◌||◌, if◌then◌else◌, List,
}
use kubernix.Prelude.Eq.{◌==◌}
use kubernix.Prelude.Outcome.{Outcome, ok, err, ◌>>=◌, map_err, ok_or}
use kubernix.TenantId.{TenantId}
use kubernix.StorePath.{StorePath}
use kubernix.Keys.{ObjectKey, object_key_eq, nar_key, log_key, built}
use kubernix.Uploads.{key_is_permitted}

-- `Capability` of crates/server/src/capability.rs
pub record Capability : Type 0 where
  pub job_id : Bytes
  pub tenant : TenantId
  pub derivation_path : StorePath
  pub expected_outputs : List (Bytes × StorePath)

pub data UploadError : Type 0 where
  undecodable_request : Bytes → UploadError
  unverified_token : UploadError
  key_not_permitted : ObjectKey → UploadError
  internal : Bytes → UploadError

-- `UrlRequest`
pub record UrlRequest : Type 0 where
  pub job_id : Bytes
  pub keys : List ObjectKey
  pub download : Bool
  pub token : Bytes

abbrev pub to_list : {A : Type 0} → Option A → List A
to_list none = []
to_list (some a) = a ∷ []

-- `.filter_map(|(_, path)| nar_key(tenant, Tier::Built, path))`
unfoldable pub output_keys : TenantId → List (Bytes × StorePath) → List ObjectKey
output_keys tenant [] = []
output_keys tenant ((name, path) ∷ outputs) =
    to_list (nar_key tenant built path) ++ output_keys tenant outputs

unfoldable pub allowed_keys : Capability → List ObjectKey
allowed_keys c =
    output_keys c.tenant c.expected_outputs ++ to_list (log_key c.tenant c.derivation_path)

abbrev pub contains_key : List ObjectKey → ObjectKey → Bool
contains_key [] key = false
contains_key (k ∷ ks) key = k == key || contains_key ks key

-- The loop over the keys: the first that fails the test ends it.
unfoldable pub check_keys : (ObjectKey → Bool) → List ObjectKey → Outcome UploadError (Unit {0})
check_keys test [] = ok tt
check_keys test (key ∷ keys) =
    let rest = check_keys test keys in if test key then rest else err (key_not_permitted key)

-- The test of one key, in either direction.
unfoldable pub grants : Capability → Bool → ObjectKey → Bool
grants c download key =
    if download
    then key_is_permitted key download c.tenant
    else key_is_permitted key download c.tenant && contains_key (allowed_keys c) key

module _ (presign : Bool → ObjectKey → Outcome Bytes Bytes) where
  unfoldable pub presign_loop : Bool → List ObjectKey → Outcome UploadError (List Bytes)
  presign_loop download [] = ok []
  presign_loop download (key ∷ keys) = do
    url ← map_err internal (presign download key)
    urls ← presign_loop download keys
    ok (url ∷ urls)

  module _ (decode_request : Bytes → Outcome Bytes UrlRequest)
      (verify : Bytes → Option Capability) where
    unfoldable pub handle : Bytes → Outcome UploadError (List Bytes)
    handle payload = do
      request ← map_err undecodable_request (decode_request payload)
      capability ← ok_or unverified_token (verify request.token)
      _ ← check_keys (grants capability request.download) request.keys
      presign_loop request.download request.keys
