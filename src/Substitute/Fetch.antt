-- ===== src/Substitute/Fetch.antt =====
-- `fetch_one` of crates/server/src/substitute.rs: a narinfo and its NAR are fetched from a substituter,
-- and the NAR is checked while it is passed on to the object store. The upload takes every chunk that
-- it is given; one that ends early gives another error than the one here.
use kubernix.Prelude.{
  ℕ, ◌++◌, ◌∷◌, [], List, Option, none, some, Bytes, Bool, true, false, codes, if◌then◌else◌, map,
  trim_end_matches, contains_text,
}
use kubernix.Prelude.Int.{ℤ}
use kubernix.Prelude.Int
use kubernix.Prelude.Eq.{◌==◌, nat_eq, list_eq}
use kubernix.Prelude.Outcome.{Outcome, ok, err, panic, ok_or, map_err, ◌>>=◌}
use kubernix.Compression
use kubernix.Compression.{Compression, lzip}
use kubernix.StorePath.{StorePath, from_full}
use kubernix.Keys.{ObjectKey, substituted_nar_key}
use kubernix.PathInfo.{PathInfo, RemoteObject, sha256}
use kubernix.Substitute.{Upstream, Response, success, not_found, failed, Body, slug_for}
use kubernix.Substitute.Narinfo.{
  FetchError, http, hash_mismatch, upload, malformed, unsupported_compression, ParsedNarinfo, parse,
}

abbrev pub concat : List Bytes → Bytes
concat [] = []
concat (chunk ∷ chunks) = chunk ++ concat chunks

-- The chunk that was held back, if there is one, is sent.
abbrev pub sending : Option Bytes → List Bytes → List Bytes
sending none sent = sent
sending (some chunk) sent = chunk ∷ sent

-- After the last chunk: the hash of what was decoded decides on the chunk that is held back.
unfoldable pub check_hash :
    Upstream → Bytes → Bytes → Option Bytes → Option Bytes → List Bytes × Outcome FetchError Bytes
check_hash up nar_hash seen pending none = ([], err (malformed (codes "nar body did not decode")))
check_hash up nar_hash seen pending (some nar) =
    if up.sha256 nar == nar_hash
    then (sending pending [], ok (up.sha256 seen))
    else ([], err hash_mismatch)

-- The loop over the body: the chunks that are sent to the upload, and the hash of the body.
unfoldable pub verify_and_forward :
    Upstream
    → Compression
    → Bytes
    → Bool
    → Bytes
    → Option Bytes
    → List Bytes
    → List Bytes × Outcome FetchError Bytes
unfolding check_hash
verify_and_forward up c nar_hash ends_well seen pending [] =
    if ends_well then check_hash up nar_hash seen pending (up.decoded c seen) else ([], err http)
verify_and_forward up c nar_hash ends_well seen pending (chunk ∷ chunks) =
    let (sent, result) =
      verify_and_forward up c nar_hash ends_well (seen ++ chunk) (some chunk) chunks in
    if up.decodes c seen chunk
    then (sending pending sent, result)
    else ([], err (malformed (codes "nar body did not decode")))

-- The object that the upload made, if it succeeded, and the result of the fetch.
abbrev pub Fetched : Type 0
Fetched = Option (ObjectKey × Bytes) × Outcome FetchError (Option (PathInfo × RemoteObject))

unfoldable pub fetched_info : StorePath → ParsedNarinfo → PathInfo
fetched_info path narinfo = record {
  path = path;
  deriver = elim narinfo.deriver [ none ↦ none | some d ↦ some (record { as_str = d }) ];
  nar_hash = record { hash_type = sha256; bytes = narinfo.nar_hash };
  nar_size = narinfo.nar_size;
  references = map (λ r. record { as_str = r }) narinfo.references;
  registration_time = Int.pos 0;
  ultimate = false;
  sigs = narinfo.sigs;
}

-- What `tokio::join!` of the loop and the upload gives, given whether the upload succeeded.
unfoldable pub joined :
    StorePath
    → ParsedNarinfo
    → Compression
    → ObjectKey
    → ℕ
    → Bytes
    → Bool
    → Outcome FetchError Bytes
    → Fetched
unfolding fetched_info
joined path narinfo c key len body true (ok file_hash) = (
  some (key, body),
  ok (
      some (
        fetched_info path narinfo,
        record { key = key; file_size = len; file_hash = file_hash; compression = c },
      )),
)
joined path narinfo c key len body false (ok file_hash) = (none, err upload)
joined path narinfo c key len body true (err e) = (some (key, body), err e)
joined path narinfo c key len body false (err e) = (none, err e)
joined path narinfo c key len body uploaded panic = (none, panic)

unfoldable pub relay :
    Upstream → StorePath → ParsedNarinfo → Compression → ObjectKey → ℕ → Body → Fetched
unfolding verify_and_forward joined
relay up path narinfo c key len body =
    let (sent, verified) =
      verify_and_forward up c narinfo.nar_hash body.ends_well [] none body.chunks in
    joined path narinfo c key len (concat sent) (up.put_object_stream key (concat sent) len)
      verified

abbrev pub is_lzip : Compression → Bool
is_lzip lzip = true
is_lzip _ = false

unfoldable pub nar_url : Bytes → Bytes → Bytes
nar_url base url = if contains_text url (codes "://") then url else base ++ (codes "/" ++ url)

-- `error_for_status()` of the response with the NAR.
unfoldable pub body_of : Response Body → Outcome FetchError Body
body_of (success body) = ok body
body_of not_found = err http
body_of failed = err http

-- What is known before the download starts.
pub record Plan : Type 0 where
  pub path : StorePath
  pub compression : Compression
  pub body : Body
  pub len : ℕ
  pub key : ObjectKey

unfoldable pub plan_key :
    Bytes → ParsedNarinfo → StorePath → Compression → Body → ℕ → Outcome FetchError Plan
unfolding substituted_nar_key slug_for
plan_key url narinfo path c body len = do
  key ← ok_or (malformed (codes "path")) (substituted_nar_key (slug_for url) path)
  if is_lzip c
      then err (unsupported_compression narinfo.compression)
      else ok (record { path = path; compression = c; body = body; len = len; key = key })

unfoldable pub plan_body :
    Upstream → Bytes → ParsedNarinfo → StorePath → Compression → Outcome FetchError Plan
unfolding nar_url body_of plan_key
plan_body up url narinfo path c = do
  body ← body_of (up.get_body (nar_url (trim_end_matches b'/' url) narinfo.url))
  len ← ok_or (malformed (codes "missing Content-Length")) body.content_length
  plan_key url narinfo path c body len

unfoldable pub plan : Upstream → Bytes → Bytes → ParsedNarinfo → Outcome FetchError Plan
unfolding plan_body Compression.from_str from_full
plan up url store_dir narinfo = do
  path ← ok_or (malformed (codes "StorePath")) (from_full store_dir narinfo.store_path)
  c ←
      map_err (λ _. unsupported_compression narinfo.compression)
        (Compression.from_str narinfo.compression)
  plan_body up url narinfo path c

unfoldable pub carry_out : Upstream → ParsedNarinfo → Outcome FetchError Plan → Fetched
unfolding relay
carry_out up narinfo (ok p) = relay up p.path narinfo p.compression p.key p.len p.body
carry_out up narinfo (err e) = (none, err e)
carry_out up narinfo panic = (none, panic)

unfoldable pub fetch_parsed : Upstream → Bytes → Bytes → Outcome FetchError ParsedNarinfo → Fetched
unfolding carry_out plan
fetch_parsed up url store_dir (ok narinfo) = carry_out up narinfo (plan up url store_dir narinfo)
fetch_parsed up url store_dir (err e) = (none, err e)
fetch_parsed up url store_dir panic = (none, panic)

unfoldable pub fetch_answer : Upstream → Bytes → Bytes → Response Bytes → Fetched
unfolding fetch_parsed parse
fetch_answer up url store_dir not_found = (none, ok none)
fetch_answer up url store_dir failed = (none, err http)
fetch_answer up url store_dir (success text) = fetch_parsed up url store_dir (parse text)

unfoldable pub fetch_one : Upstream → Bytes → Bytes → Bytes → Fetched
unfolding fetch_answer
fetch_one up url hash_part store_dir =
    fetch_answer up url store_dir
      (up.get_text (trim_end_matches b'/' url ++ (codes "/" ++ (hash_part ++ codes ".narinfo"))))
