-- ===== src/Uploads/Minted.antt =====
-- The keys that crates/server/src/store.rs mints for a job are granted by crates/server/src/uploads.rs.
use kubernix.Prelude.{
  ℕ, ◌<◌, ◌≡◌, ◌≢◌, ◌++◌, ◌∷◌, [], some, Bytes, Bool, true, false, codes, length, not, eqb, ◌&&◌,
  ◌||◌, arith, refl, append_assoc, contains_text, starts_with, strip_prefix, strip_prefix-append,
  &&-eq-true, Bool-cases, inl, inr,
}
use kubernix.Prelude.Indexed.{contains}
use kubernix.TenantId.{TenantId}
use kubernix.TenantId.Safe.{IsWireId, IsKeySafe, all_wire_chars-safe}
use kubernix.StorePath.{StorePath, hash_part}
use kubernix.Keys.{ObjectKey, built, nar_key}
use kubernix.Base32.{base32_chars, all_in_alphabet, is_valid}
use kubernix.Uploads.{
  escapes, is_artifact, is_shared_verified_key, is_shared_substituted_key, key_is_permitted,
}

-- In front of a text, characters that are no dots do not bring in a `..`.
dots-append :
    (s t : Bytes) → IsKeySafe s → contains_text (s ++ t) (codes "..") ≡ contains_text t (codes "..")
dots-append [] t h = refl
dots-append (c ∷ s) t (h, hs) = ground (arith, dots-append s t hs, h.1)

base32_char-safe : (c : ℕ) → contains base32_chars c ≡ true → (c ≢ b'/') × (c ≢ b'.')
base32_char-safe c h = (λ e. cc (rw e at h), λ e. cc (rw e at h))

alphabet-safe : (s : Bytes) → all_in_alphabet s ≡ true → IsKeySafe s
unfolding all_in_alphabet
alphabet-safe [] h = tt
alphabet-safe (c ∷ s) h =
    let (p, q) = &&-eq-true (contains base32_chars c) (all_in_alphabet s) h in
    (base32_char-safe c p, alphabet-safe s q)

-- The id's first character is no `/`.
no_leading_slash :
    (t : TenantId) (rest : Bytes) → IsWireId t → starts_with (t.as_str ++ rest) (codes "/") ≡ false
no_leading_slash t rest w = go t.as_str w.nonempty (all_wire_chars-safe t.as_str w.chars)
  where
    go : (s : Bytes) → 0 < length s → IsKeySafe s → starts_with (s ++ rest) (codes "/") ≡ false
    go [] h _ = absurd (omega arith)
    go (c ∷ s) h (safe, _) = ground (arith, safe.0)

not_escaping :
    (key : ObjectKey) (tenant : TenantId) (rest : Bytes)
    → IsWireId tenant
    → key.as_str ≡ tenant.as_str ++ (codes "/" ++ rest)
    → contains_text (codes "/" ++ rest) (codes "..") ≡ false
    → escapes key.as_str ≡ false
unfolding escapes
not_escaping key tenant rest w text dots =
    let behind = codes "/" ++ rest in
    rw text (
      rw (dots-append tenant.as_str behind (all_wire_chars-safe tenant.as_str w.chars))
        (rw dots (no_leading_slash tenant behind w)))

pub own-granted :
    (key : ObjectKey) (download : Bool) (tenant : TenantId) (rest : Bytes)
    → escapes key.as_str ≡ false
    → key.as_str ≡ tenant.as_str ++ (codes "/" ++ rest)
    → is_artifact download rest ≡ true
    → key_is_permitted key download tenant ≡ true
unfolding key_is_permitted
own-granted key download tenant rest good text artifact =
    let own : strip_prefix key.as_str (tenant.as_str ++ codes "/") ≡ some rest =
      rw text (rw (← append_assoc) (strip_prefix-append (tenant.as_str ++ codes "/") rest)) in
    let shared = is_shared_verified_key key || is_shared_substituted_key key in
    elim (Bool-cases (download && shared)) [
      | inl s ↦ rw good (rw s)
      | inr s ↦ rw good (rw s (rw own artifact))
    ]

nar_artifact : (download : Bool) (rest : Bytes) → is_artifact download (codes "nar/" ++ rest) ≡ true
unfolding is_artifact
nar_artifact true rest = refl
nar_artifact false rest = refl

-- The object key of an output that a worker builds, for a wire tenant id and a path whose hash part
-- is base32, is granted to that tenant for upload and for download.
pub built_key-granted :
    (tenant : TenantId) (path : StorePath) (hash : Bytes) (key : ObjectKey) (download : Bool)
    → IsWireId tenant
    → hash_part path ≡ some hash
    → is_valid hash ≡ true
    → nar_key tenant built path ≡ some key
    → key_is_permitted key download tenant ≡ true
unfolding nar_key is_valid
built_key-granted tenant path hash key download w part valid minted =
    let safe = alphabet-safe hash (&&-eq-true (not (eqb (length hash) 0)) _ valid).1 in
    let rest = codes "nar/" ++ (hash ++ codes ".nar.zst") in
    let text : key.as_str ≡ tenant.as_str ++ (codes "/" ++ rest) = cc (
      rw (part, nar_key) at minted,
      append_assoc tenant.as_str (codes "/nar/") (hash ++ codes ".nar.zst"),
    ) in
    own-granted key download tenant rest
      (not_escaping key tenant rest w text (dots-append hash (codes ".nar.zst") safe)) text
      (nar_artifact download (hash ++ codes ".nar.zst"))
