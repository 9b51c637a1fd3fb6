-- ===== src/ContentPath/Named.antt =====
-- The name and the hash part of a computed store path (crates/server/src/store_path.rs and
-- crates/types/src/store_path.rs).
use kubernix.Prelude.{
  Without, split_first-front, split_once-Without, rsplit_first-Without, ℕ, zero, suc, ◌+◌, ◌-◌, ◌*◌,
  ◌/◌, ◌%◌, ◌<◌, ◌++◌, ◌∷◌, [], List, some, Bytes, true, false, codes, ◌≡◌, refl, sym, ◌∙◌, ap,
  subst, not, Bool-cases, inl, inr, All-append, length, length-replicate, arith, eqb, rsplit_first,
  &&-eq-true, some-injective,
}
use kubernix.Prelude.Eq.{◌==◌, nat_eq, list_eq}
use kubernix.Prelude.Indexed.{set, contains}
use kubernix.StorePath.{StorePath, is_empty, hash_part}
use kubernix.StorePath
use kubernix.Base32.{encode, is_valid, all_in_alphabet, base32_chars}
use kubernix.Base32.Alphabet.{encode-is_valid}
use kubernix.ContentPath.{
  CaMethod, text, flat, recursive, fold_bytes, compress_hash, make_store_path, short_form,
  long_form, store_path_for,
}

length-set : (xs : Bytes) (i v : ℕ) → length (set xs i v) ≡ length xs
length-set [] i v = refl
length-set (x ∷ xs) zero v = refl
length-set (x ∷ xs) (suc i) v = omega (arith, length-set xs i v)

length-fold_bytes : (n i : ℕ) (hash out : Bytes) → length (fold_bytes n i hash out) ≡ length out
unfolding fold_bytes
length-fold_bytes n i [] out = refl
length-fold_bytes n i (b ∷ hash) out = length-fold_bytes n (i + 1) hash _ ∙ length-set out (i % n) _

length-compress_hash : (hash : Bytes) (n : ℕ) → length (compress_hash hash n) ≡ n
unfolding compress_hash
length-compress_hash hash n = length-fold_bytes n 0 hash _ ∙ length-replicate n (let z : ℕ = 0 in z)

-- A character that the alphabet lacks is in no text over the alphabet.
alphabet-Without :
    (c : ℕ) (s : Bytes) → contains base32_chars c ≡ false → all_in_alphabet s ≡ true → Without c s
unfolding all_in_alphabet
alphabet-Without c [] n h = tt
alphabet-Without c (x ∷ s) n h =
    let (a, b) = &&-eq-true (contains base32_chars x) (all_in_alphabet s) h in
    ((λ e. cc (a, n, ap (contains base32_chars) e)), alphabet-Without c s n b)

-- A text that `make_store_path` puts before the `-`.
record IsHashText (h : Bytes) : Type 0 where
  size : length h ≡ 32
  valid : is_valid h ≡ true
  no_dash : Without b'-' h
  no_slash : Without b'/' h

valid-alphabet : (s : Bytes) → is_valid s ≡ true → all_in_alphabet s ≡ true
unfolding is_valid
valid-alphabet s h = (&&-eq-true (not (eqb (length s) 0)) (all_in_alphabet s) h).1

encode-IsHashText : (hash : Bytes) → IsHashText (encode (compress_hash hash 20))
encode-IsHashText hash =
    let n = length-compress_hash hash 20 in
    let (size, valid) = encode-is_valid (compress_hash hash 20) (omega (arith, n)) in
    let letters = valid-alphabet _ valid in
    record {
      size = size ∙ ap (λ k. (k * 8 - 1) / 5 + 1) n;
      valid = valid;
      no_dash = alphabet-Without b'-' _ refl letters;
      no_slash = alphabet-Without b'/' _ refl letters;
    }

-- What `StorePath` reads of a path.
pub record IsNamed (path : StorePath) (name : Bytes) : Type 0 where
  pub hash : Bytes
  pub named : StorePath.name path ≡ some name
  pub hashed : hash_part path ≡ some hash
  pub size : length hash ≡ 32
  pub valid : is_valid hash ≡ true

joined-IsNamed :
    (h name : Bytes) (path : StorePath)
    → path.as_str ≡ h ++ (b'-' ∷ name)
    → IsHashText h
    → 0 < length name
    → Without b'/' name
    → IsNamed path name
unfolding StorePath.name hash_part is_empty
joined-IsNamed h name path e i some_name plain =
    let whole : Without b'/' path.as_str = subst (Without b'/') (sym e) (
      All-append (λ x. x ≡ b'/' → ⊥) h (b'-' ∷ name) i.no_slash ((λ q. omega (arith, q)), plain)) in
    let base : rsplit_first b'/' path.as_str ≡ h ++ (b'-' ∷ name) =
      rsplit_first-Without b'/' path.as_str whole ∙ e in
    record {
      hash = h;
      named =
          rw (base, StorePath.name)
            (rw (split_once-Without b'-' h name i.no_dash) (ground (arith, i.size)));
      hashed =
          rw (base, hash_part)
            (rw (split_first-front b'-' h name i.no_dash) (ground (arith, i.size)));
      size = i.size;
      valid = i.valid;
    }

-- Every path that `store_path_for` makes is one that `make_store_path` makes.
store_path_for-made :
    (sha256 : Bytes → Bytes) (dir name : Bytes) (method : CaMethod) (algo hash : Bytes)
    (references : List StorePath) (path : StorePath)
    → store_path_for sha256 dir name method algo hash references ≡ some path
    → (ty : Bytes) × (inner : Bytes) × (path.as_str ≡ make_store_path sha256 dir ty inner name)
unfolding store_path_for short_form long_form
store_path_for-made sha256 dir name text algo hash references path h =
    elim (Bool-cases (algo == codes "sha256")) [
      | inl e ↦ (_, _, sym (ap (λ p. p.as_str) (some-injective (rw e at h))))
      | inr e ↦ cc (rw e at h)
    ]
store_path_for-made sha256 dir name flat algo hash [] path h =
    (_, _, sym (ap (λ p. p.as_str) (some-injective h)))
store_path_for-made sha256 dir name flat algo hash (r ∷ rs) path h = cc
store_path_for-made sha256 dir name recursive algo hash [] path h =
    elim (Bool-cases (algo == codes "sha256")) [
      | inl e ↦ (_, _, sym (ap (λ p. p.as_str) (some-injective (rw e at h))))
      | inr e ↦ (_, _, sym (ap (λ p. p.as_str) (some-injective (rw e at h))))
    ]
store_path_for-made sha256 dir name recursive algo hash (r ∷ rs) path h =
    elim (Bool-cases (algo == codes "sha256")) [
      | inl e ↦ (_, _, sym (ap (λ p. p.as_str) (some-injective (rw e at h))))
      | inr e ↦ cc (rw e at h)
    ]

make_store_path-IsNamed :
    (sha256 : Bytes → Bytes) (dir ty inner name : Bytes) (path : StorePath)
    → path.as_str ≡ make_store_path sha256 dir ty inner name
    → 0 < length name
    → Without b'/' name
    → IsNamed path name
unfolding make_store_path
make_store_path-IsNamed sha256 dir ty inner name path e some_name plain =
    joined-IsNamed _ name path e (encode-IsHashText _) some_name plain

-- A path that `store_path_for` computes for a name that is not empty and has no `/` has this name
-- and a valid hash part of 32 characters, whatever the hash function is.
pub store_path_for-IsNamed :
    (sha256 : Bytes → Bytes) (dir name : Bytes) (method : CaMethod) (algo hash : Bytes)
    (references : List StorePath) (path : StorePath)
    → store_path_for sha256 dir name method algo hash references ≡ some path
    → 0 < length name
    → Without b'/' name
    → IsNamed path name
store_path_for-IsNamed sha256 dir name method algo hash references path h some_name plain =
    let (ty, inner, e) = store_path_for-made sha256 dir name method algo hash references path h in
    make_store_path-IsNamed sha256 dir ty inner name path e some_name plain
