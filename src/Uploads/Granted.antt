-- ===== src/Uploads/Granted.antt =====
-- What the handler of crates/server/src/uploads.rs grants, and what it refuses.
use kubernix.Prelude.{
  ◌≡◌, ◌++◌, ◌∷◌, [], Option, none, some, Bytes, Bool, true, false, inl, inr, List, All, All-map,
  In, In-append, length, arith, refl, &&-eq-true, Bool-cases, ap, sym, ◌∙◌, subst,
}
use kubernix.Prelude.Eq.{◌==◌, ==→eq}
use kubernix.Prelude.Outcome.{Outcome, ok, err, ◌>>=◌, map_err, ok_or, >>=-eq-ok, ok_or-eq-ok}
use kubernix.StorePath.{StorePath}
use kubernix.Keys.{ObjectKey, object_key_eq, nar_key, log_key, built}
use kubernix.Uploads.{key_is_permitted}
use kubernix.Uploads.Handler.{
  Capability, UploadError, internal, unverified_token, key_not_permitted, UrlRequest, to_list,
  output_keys, allowed_keys, contains_key, check_keys, grants, presign_loop, handle,
}

-- The object of one of the job's verified outputs, or of its log.
pub data Owns (c : Capability) (key : ObjectKey) : Type 0 where
  output :
      (name : Bytes) (path : StorePath)
      → In (name, path) c.expected_outputs
      → nar_key c.tenant built path ≡ some key
      → Owns c key
  log : log_key c.tenant c.derivation_path ≡ some key → Owns c key

In-to_list : {A : Type 0} (o : Option A) (a : A) → In a (to_list o) → o ≡ some a
In-to_list none a h = absurd h
In-to_list (some b) a (inl e) = ap some (sym e)
In-to_list (some b) a (inr h) = absurd h

contains_key-In :
    (keys : List ObjectKey) (key : ObjectKey) → contains_key keys key ≡ true → In key keys
contains_key-In [] key h = absurd (cc h)
contains_key-In (k ∷ ks) key h = elim (Bool-cases (k == key)) [
  | inl e ↦ inl (sym (==→eq k key e))
  | inr e ↦ inr (contains_key-In ks key (rw e at h))
]

output_keys-Owns :
    (c : Capability) (key : ObjectKey) (outputs : List (Bytes × StorePath))
    → In key (output_keys c.tenant outputs)
    → (name : Bytes) × (path : StorePath) × In (name, path) outputs
      × (nar_key c.tenant built path ≡ some key)
unfolding output_keys
output_keys-Owns c key [] h = absurd h
output_keys-Owns c key ((name, path) ∷ outputs) h =
    elim (In-append key (to_list (nar_key c.tenant built path)) (output_keys c.tenant outputs) h) [
      | inl m ↦ (name, path, inl refl, In-to_list (nar_key c.tenant built path) key m)
      | inr m ↦ let (n, p, i, e) = output_keys-Owns c key outputs m in (n, p, inr i, e)
    ]

allowed_keys-Owns : (c : Capability) (key : ObjectKey) → In key (allowed_keys c) → Owns c key
unfolding allowed_keys
allowed_keys-Owns c key h =
    elim (In-append key (output_keys c.tenant c.expected_outputs)
      (to_list (log_key c.tenant c.derivation_path)) h) [
        | inl m ↦ let (n, p, i, e) = output_keys-Owns c key c.expected_outputs m in output n p i e
        | inr m ↦ log (In-to_list (log_key c.tenant c.derivation_path) key m)
      ]

-- A worker may write a key of the tenant that is an object of its job.
pub record MayWrite (c : Capability) (key : ObjectKey) : Type 0 where
  pub permitted : key_is_permitted key false c.tenant ≡ true
  pub owned : Owns c key

grants-MayWrite : (c : Capability) (key : ObjectKey) → grants c false key ≡ true → MayWrite c key
unfolding grants
grants-MayWrite c key h =
    let (p, m) =
      &&-eq-true (key_is_permitted key false c.tenant) (contains_key (allowed_keys c) key) h in
    record {
      permitted = p;
      owned = allowed_keys-Owns c key (contains_key-In (allowed_keys c) key m);
    }

pub check_keys-All :
    (test : ObjectKey → Bool) (keys : List ObjectKey)
    → check_keys test keys ≡ ok tt
    → All (λ k. test k ≡ true) keys
unfolding check_keys
check_keys-All test [] h = tt
check_keys-All test (k ∷ ks) h = elim (Bool-cases (test k)) [
  | inl e ↦ (e, check_keys-All test ks (rw e at h))
  | inr e ↦ cc (rw e at h)
]

check_keys_first :
    (test : ObjectKey → Bool) (front : List ObjectKey) (bad : ObjectKey) (back : List ObjectKey)
    → All (λ k. test k ≡ true) front
    → test bad ≡ false
    → check_keys test (front ++ bad ∷ back) ≡ err (key_not_permitted bad)
unfolding check_keys
check_keys_first test [] bad back _ e = rw e
check_keys_first test (k ∷ front) bad back (h, hs) e =
    rw h (check_keys_first test front bad back hs e)

length-presign_loop :
    (presign : Bool → ObjectKey → Outcome Bytes Bytes) (download : Bool) (keys : List ObjectKey)
    (urls : List Bytes)
    → presign_loop presign download keys ≡ ok urls
    → length urls ≡ length keys
unfolding presign_loop
length-presign_loop presign download [] urls h = ground arith
length-presign_loop presign download (k ∷ ks) urls h =
    let (url, _, h') = >>=-eq-ok (map_err internal (presign download k)) _ h in
    let (rest, more, e) = >>=-eq-ok (presign_loop presign download ks) _ h' in
    let count = length-presign_loop presign download ks rest more in ground (arith, e, count)

module _ (presign : Bool → ObjectKey → Outcome Bytes Bytes)
    (decode_request : Bytes → Outcome Bytes UrlRequest) (verify : Bytes → Option Capability)
    (payload : Bytes) (request : UrlRequest) (decoded : decode_request payload ≡ ok request) where
  -- What the handler does behind the decoding.
  answer : Outcome UploadError (List Bytes)
  answer = do
    c ← ok_or unverified_token (verify request.token)
    _ ← check_keys (grants c request.download) request.keys
    presign_loop presign request.download request.keys

  handle_decoded : handle presign decode_request verify payload ≡ answer
  unfolding handle answer
  handle_decoded = rw decoded

  answer-eq-ok :
      (urls : List Bytes)
      → answer ≡ ok urls
      → (c : Capability) × (verify request.token ≡ some c)
        × All (λ k. grants c request.download k ≡ true) request.keys
        × (length urls ≡ length request.keys)
  unfolding answer
  answer-eq-ok urls h =
      let (c, v, h1) = >>=-eq-ok (ok_or unverified_token (verify request.token)) _ h in
      let (_, checked, signed) =
        >>=-eq-ok (check_keys (grants c request.download) request.keys) _ h1 in
      (
        c,
        ok_or-eq-ok unverified_token (verify request.token) v,
        check_keys-All (grants c request.download) request.keys checked,
        length-presign_loop presign request.download request.keys urls signed,
      )

  -- An upload request that is answered with URLs carried a token that verifies; there is a URL for
  -- each key, and each key is permitted to the token's tenant and is the object of one of the job's
  -- expected outputs or of its log.
  pub handle_upload :
      (urls : List Bytes)
      → request.download ≡ false
      → handle presign decode_request verify payload ≡ ok urls
      → (c : Capability) × (verify request.token ≡ some c)
        × All (MayWrite c) request.keys
        × (length urls ≡ length request.keys)
  handle_upload urls upload h =
      let (c, v, granted, count) = answer-eq-ok urls (sym handle_decoded ∙ h) in
      (
        c,
        v,
        All-map (λ k e. grants-MayWrite c k (subst (λ d. grants c d k ≡ true) upload e))
            request.keys granted,
        count,
      )

  -- A request that has a key which its verified token does not grant is refused whole, with the
  -- first such key, and no URL is signed: the answer does not depend on the signing.
  pub handle_refuses :
      (c : Capability) (front : List ObjectKey) (bad : ObjectKey) (back : List ObjectKey)
      → verify request.token ≡ some c
      → request.keys ≡ front ++ bad ∷ back
      → All (λ k. grants c request.download k ≡ true) front
      → grants c request.download bad ≡ false
      → handle presign decode_request verify payload ≡ err (key_not_permitted bad)
  handle_refuses c front bad back v keys good refused =
      handle_decoded
      ∙ (unfold answer in
          rw v
            (rw (keys, check_keys_first (grants c request.download) front bad back good refused)))
