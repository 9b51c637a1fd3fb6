-- ===== src/Examples/Grants.antt =====
-- Requests for pre-signed URLs (crates/server/src/uploads.rs).
use kubernix.Prelude.{
  [], ◌∷◌, ◌++◌, Bytes, codes, refl, some, Option, Bool, true, false, List, ◌≡◌, ◌≢◌, All, length,
  ◌||◌, ap,
}
use kubernix.Prelude.Outcome.{Outcome, ok, err}
use kubernix.StorePath.{hash_part}
use kubernix.Base32.{is_valid}
use kubernix.Keys.{ObjectKey, nar_key, log_key, built}
use kubernix.Claims.{from_capability, into_capability, into_capability-from_capability}
use kubernix.Keys.Places.{stored, key_at, IsPlace, IsSamePlace, key_at-IsSamePlace}
use kubernix.Uploads.{
  is_nar_name, is_shared_verified_key, is_shared_substituted_key, escapes, is_artifact,
  key_is_permitted,
}
use kubernix.Uploads.Spelled.{IsGranted}
use kubernix.Uploads.Exact.{key_is_permitted_iff}
use kubernix.Prelude.{◌↔◌}
use kubernix.Uploads.Isolation.{upload_isolation, download_isolation}
use kubernix.Uploads.Handler.{
  Capability, key_not_permitted, UrlRequest, allowed_keys, output_keys, check_keys, grants,
  presign_loop, handle,
}
use kubernix.Uploads.Granted.{MayWrite, handle_upload, handle_refuses}
use kubernix.Examples.Data.{
  acme, beta, acme-IsWireId, beta-IsWireId, hash_text, hello, hello_drv, acme_nar, acme_log,
  shared_nar,
}

abbrev presign : Bool → ObjectKey → Outcome Bytes Bytes
presign download key = ok (codes "https://s3/" ++ key.as_str)

abbrev capability : Capability
capability = record {
  job_id = codes "7";
  tenant = acme;
  derivation_path = hello_drv;
  expected_outputs = (codes "out", hello) ∷ [];
}

abbrev verify : Bytes → Option Capability
verify token = some capability

abbrev request : UrlRequest
request = record {
  job_id = codes "7";
  keys = acme_nar ∷ acme_log ∷ [];
  download = false;
  token = codes "t";
}

abbrev decode : UrlRequest → Bytes → Outcome Bytes UrlRequest
decode r payload = ok r

abbrev urls : List Bytes
urls = (codes "https://s3/" ++ acme_nar.as_str) ∷ (codes "https://s3/" ++ acme_log.as_str) ∷ []

answered : handle presign (decode request) verify [] ≡ ok urls
unfolding handle check_keys grants allowed_keys output_keys presign_loop key_is_permitted escapes
    is_artifact nar_key log_key hash_part
answered = refl

handle_upload_example :
    (c : Capability) × (verify request.token ≡ some c)
    × All (MayWrite c) request.keys
    × (length urls ≡ length request.keys)
handle_upload_example =
    handle_upload presign (decode request) verify [] request refl urls refl answered

abbrev greedy : UrlRequest
greedy = record {
  job_id = codes "7";
  keys = acme_nar ∷ shared_nar ∷ [];
  download = false;
  token = codes "t";
}

granted_first : grants capability false acme_nar ≡ true
unfolding grants allowed_keys output_keys key_is_permitted escapes is_artifact nar_key log_key
    hash_part
granted_first = refl

refused_second : grants capability false shared_nar ≡ false
unfolding grants key_is_permitted escapes
refused_second = refl

handle_refuses_example :
    handle presign (decode greedy) verify [] ≡ err (key_not_permitted shared_nar)
handle_refuses_example =
    handle_refuses presign (decode greedy) verify [] greedy refl capability (acme_nar ∷ [])
      shared_nar [] refl refl (granted_first, tt) refused_second

own_upload : key_is_permitted acme_nar false acme ≡ true
unfolding key_is_permitted escapes is_artifact
own_upload = refl

shared_download_acme : key_is_permitted shared_nar true acme ≡ true
unfolding key_is_permitted escapes is_shared_verified_key is_nar_name is_valid
shared_download_acme = refl

shared_download_beta : key_is_permitted shared_nar true beta ≡ true
unfolding key_is_permitted escapes is_shared_verified_key is_nar_name is_valid
shared_download_beta = refl

key_is_permitted_iff_example :
    (key_is_permitted acme_nar false acme ≡ true) ↔ IsGranted acme_nar false acme
key_is_permitted_iff_example = key_is_permitted_iff acme_nar false acme

upload_isolation_example : acme ≡ acme
upload_isolation_example =
    upload_isolation acme_nar acme acme acme-IsWireId acme-IsWireId own_upload own_upload

acme-ne-beta : acme ≢ beta
acme-ne-beta e = cc (ap (λ t. t.as_str) e)

download_isolation_example :
    (is_shared_verified_key shared_nar || is_shared_substituted_key shared_nar) ≡ true
download_isolation_example =
    download_isolation shared_nar acme beta acme-IsWireId beta-IsWireId acme-ne-beta
      shared_download_acme shared_download_beta

hello-hash_part : hash_part hello ≡ some hash_text
unfolding hash_part
hello-hash_part = refl

hash_text-is_valid : is_valid hash_text ≡ true
unfolding is_valid
hash_text-is_valid = refl

acme_nar-kept : key_at (stored acme built) hello ≡ some acme_nar
unfolding key_at nar_key hash_part
acme_nar-kept = refl

acme-IsPlace : IsPlace (stored acme built)
acme-IsPlace = (acme-IsWireId, λ e. cc e)

key_at-IsSamePlace_example :
    IsSamePlace (stored acme built) (stored acme built) × (hash_part hello ≡ hash_part hello)
key_at-IsSamePlace_example =
    key_at-IsSamePlace (stored acme built) (stored acme built) hello hello acme_nar acme-IsPlace
      acme-IsPlace acme_nar-kept acme_nar-kept

into_capability-from_capability_example :
    into_capability (from_capability capability) ≡ some capability
into_capability-from_capability_example = into_capability-from_capability capability acme-IsWireId
