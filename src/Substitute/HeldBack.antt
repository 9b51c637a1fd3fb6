-- ===== src/Substitute/HeldBack.antt =====
-- What `fetch_one` of crates/server/src/substitute.rs leaves in the object store.
use kubernix.Prelude.{
  ℕ, ◌⊎◌, ◌<◌, ◌≤◌, ◌≡◌, ◌++◌, [], List, none, some, codes, trim_end_matches, Bytes, Bool, true,
  false, length, All, arith, refl, sym, ap, ◌∙◌, subst, inl, inr, Bool-cases, Option-cases,
}
use kubernix.Prelude.Eq.{nat_eq, list_eq}
use kubernix.Prelude.Outcome.{
  Outcome, ok, err, panic, ok_or, map_err, ◌>>=◌, >>=-eq-ok, ok_or-eq-ok, ok-injective,
}
use kubernix.Compression
use kubernix.Compression.{Compression}
use kubernix.StorePath.{StorePath, from_full}
use kubernix.Keys.{ObjectKey, substituted_nar_key}
use kubernix.PathInfo.{PathInfo, RemoteObject}
use kubernix.Substitute.{Upstream, Response, success, not_found, failed, Body, slug_for}
use kubernix.Substitute.Narinfo.{
  FetchError, malformed, unsupported_compression, ParsedNarinfo, parse,
}
use kubernix.Substitute.Fetch.{
  concat, verify_and_forward, fetched_info, joined, relay, Fetched, Plan, plan_key, plan_body, plan,
  nar_url, body_of, is_lzip, carry_out, fetch_parsed, fetch_answer, fetch_one,
}
use kubernix.Substitute.Resolve.{Hit}
use kubernix.Substitute.Forwards.{IsVerified, Forwards, verify_and_forward_lem}

-- The body is no longer than `len`, and has no empty chunk.
abbrev pub Bounded : Body → ℕ → Type 0
Bounded body len = (length (concat body.chunks) ≤ len) × All (λ chunk. 0 < length chunk) body.chunks

-- What is asked of the outside: an upload succeeds only with as many bytes as were declared, and a
-- download is at most as long as its `Content-Length`, and comes in chunks that are not empty.
pub record Conforms (up : Upstream) : Type 0 where
  pub uploads :
      (key : ObjectKey) (body : Bytes) (len : ℕ)
      → up.put_object_stream key body len ≡ true
      → length body ≡ len
  pub downloads :
      (url : Bytes) (body : Body) (len : ℕ)
      → up.get_body url ≡ success body
      → body.content_length ≡ some len
      → Bounded body len

-- The object that a fetch leaves behind: what it decodes to has the hash of the record that the fetch
-- returns, and the description of the object is true.
pub record Describes (up : Upstream) (at : ObjectKey) (body : Bytes) (info : PathInfo)
    (object : RemoteObject) : Type 0 where
  pub key : object.key ≡ at
  pub size : object.file_size ≡ length body
  pub file_hash : object.file_hash ≡ up.sha256 body
  pub verified : IsVerified up object.compression info.nar_hash.bytes body

-- The fetch succeeded with this object.
abbrev pub IsChecked : Upstream → ObjectKey → Bytes → Outcome FetchError Hit → Type 0
IsChecked up key body result =
    (info : PathInfo) × (object : RemoteObject) × (result ≡ ok (some (info, object)))
    × Describes up key body info object

-- The fetch failed, and the object that it left is empty.
abbrev pub IsEmptied : Bytes → Outcome FetchError Hit → Type 0
IsEmptied body result = (body ≡ []) × (e : FetchError) × (result ≡ err e)

abbrev pub StoresChecked : Upstream → Fetched → Type 0
StoresChecked up (none, result) = Unit
StoresChecked up (some (key, body), result) = IsChecked up key body result ⊎ IsEmptied body result

module _ (up : Upstream) (h : Conforms up) where
  joined_lem :
      (path : StorePath) (narinfo : ParsedNarinfo) (c : Compression) (key : ObjectKey) (len : ℕ)
      (chunks sent : List Bytes) (verified : Outcome FetchError Bytes) (uploaded : Bool)
      → up.put_object_stream key (concat sent) len ≡ uploaded
      → length (concat chunks) ≤ len
      → Forwards up c narinfo.nar_hash [] none chunks (sent, verified)
      → StoresChecked up (joined path narinfo c key len (concat sent) uploaded verified)
  unfolding joined fetched_info
  joined_lem path narinfo c key len chunks sent (ok hash) true put d (all, hashed, v) = inl (
    _,
    _,
    refl,
    record {
      key = refl;
      size = sym (h.uploads key (concat sent) len put);
      file_hash = hashed ∙ ap up.sha256 (sym all);
      verified = subst (IsVerified up c narinfo.nar_hash) (sym all) v;
    },
  )
  joined_lem path narinfo c key len chunks sent (ok hash) false put d f = tt
  joined_lem path narinfo c key len chunks sent (err e) true put d (inl none_) =
      inr (ap concat none_, e, refl)
  joined_lem path narinfo c key len chunks sent (err e) true put d (inr less) =
      absurd (omega (arith, h.uploads key (concat sent) len put, d, less))
  joined_lem path narinfo c key len chunks sent (err e) false put d f = tt
  joined_lem path narinfo c key len chunks sent panic uploaded put d f = absurd f

  body_of-success : (r : Response Body) (body : Body) → body_of r ≡ ok body → r ≡ success body
  unfolding body_of
  body_of-success (success b) body e = ap success (ok-injective e)
  body_of-success not_found body e = cc
  body_of-success failed body e = cc

  plan_key-body :
      (url : Bytes) (narinfo : ParsedNarinfo) (path : StorePath) (c : Compression) (body : Body)
      (len : ℕ) (p : Plan)
      → plan_key url narinfo path c body len ≡ ok p
      → (body ≡ p.body) × (len ≡ p.len)
  unfolding plan_key
  plan_key-body url narinfo path c body len p e =
      elim (Option-cases (substituted_nar_key (slug_for url) path)) [
        | inl n ↦ cc (rw n at e)
        | inr (key, s) ↦ elim (Bool-cases (is_lzip c)) [
          | inl l ↦ cc (rw (s, l) at e)
          | inr l ↦ let q = ok-injective (rw (s, l) at e) in (ap (λ x. x.body) q, ap (λ x. x.len) q)
        ]
      ]

  plan_body-body :
      (url : Bytes) (narinfo : ParsedNarinfo) (path : StorePath) (c : Compression) (p : Plan)
      → plan_body up url narinfo path c ≡ ok p
      → Bounded p.body p.len
  unfolding plan_body
  plan_body-body url narinfo path c p e =
      let (body, got, e1) =
        >>=-eq-ok (body_of (up.get_body (nar_url (trim_end_matches b'/' url) narinfo.url)))
          (λ body.
            ok_or (malformed (codes "missing Content-Length")) body.content_length
            >>= plan_key url narinfo path c body)
          e in
      let (len, declared, e2) =
        >>=-eq-ok (ok_or (malformed (codes "missing Content-Length")) body.content_length)
          (plan_key url narinfo path c body) e1 in
      let (same_body, same_len) = plan_key-body url narinfo path c body len p e2 in
      subst (λ b. Bounded b p.len) same_body
        (subst (Bounded body) same_len (
          h.downloads _ body len (body_of-success _ body got)
            (ok_or-eq-ok _ body.content_length declared)))

  plan-body :
      (url store_dir : Bytes) (narinfo : ParsedNarinfo) (p : Plan)
      → plan up url store_dir narinfo ≡ ok p
      → Bounded p.body p.len
  unfolding plan
  plan-body url store_dir narinfo p e =
      let codec =
        map_err (λ _. unsupported_compression narinfo.compression)
          (Compression.from_str narinfo.compression) in
      let (path, _, e1) =
        >>=-eq-ok (ok_or (malformed (codes "StorePath")) (from_full store_dir narinfo.store_path))
          (λ path. codec >>= plan_body up url narinfo path) e in
      let (c, _, e2) = >>=-eq-ok codec (plan_body up url narinfo path) e1 in
      plan_body-body url narinfo path c p e2

  carry_out_lem :
      (narinfo : ParsedNarinfo) (made : Outcome FetchError Plan)
      → ((p : Plan) → made ≡ ok p → Bounded p.body p.len)
      → StoresChecked up (carry_out up narinfo made)
  unfolding carry_out relay
  carry_out_lem narinfo (ok p) d =
      let (bound, n) = d p refl in
      let (sent, verified) =
        verify_and_forward up p.compression narinfo.nar_hash p.body.ends_well [] none
          p.body.chunks in
      joined_lem p.path narinfo p.compression p.key p.len p.body.chunks sent verified _ refl bound (
        verify_and_forward_lem up p.compression narinfo.nar_hash p.body.ends_well [] none
          p.body.chunks n)
  carry_out_lem narinfo (err e) d = tt
  carry_out_lem narinfo panic d = tt

  fetch_parsed_lem :
      (url store_dir : Bytes) (parsed : Outcome FetchError ParsedNarinfo)
      → StoresChecked up (fetch_parsed up url store_dir parsed)
  unfolding fetch_parsed
  fetch_parsed_lem url store_dir (ok narinfo) =
      carry_out_lem narinfo (plan up url store_dir narinfo) (plan-body url store_dir narinfo)
  fetch_parsed_lem url store_dir (err e) = tt
  fetch_parsed_lem url store_dir panic = tt

  fetch_answer_lem :
      (url store_dir : Bytes) (answer : Response Bytes)
      → StoresChecked up (fetch_answer up url store_dir answer)
  unfolding fetch_answer
  fetch_answer_lem url store_dir not_found = tt
  fetch_answer_lem url store_dir failed = tt
  fetch_answer_lem url store_dir (success text) = fetch_parsed_lem url store_dir (parse text)

-- If uploads succeed only at their declared length, and downloads are no longer than their
-- `Content-Length` and come in chunks that are not empty, then a fetch that leaves an object behind
-- either succeeds, and the object decodes to bytes with the hash of the recorded path, and its
-- recorded key, size and hash are its own; or it fails, and the object is empty.
pub fetch_one-StoresChecked :
    (up : Upstream) (url hash_part store_dir : Bytes)
    → Conforms up
    → StoresChecked up (fetch_one up url hash_part store_dir)
unfolding fetch_one
fetch_one-StoresChecked up url hash_part store_dir h =
    fetch_answer_lem up h url store_dir
      (up.get_text (trim_end_matches b'/' url ++ (codes "/" ++ (hash_part ++ codes ".narinfo"))))
