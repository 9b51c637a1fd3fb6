-- ===== src/Base32/Alphabet.antt =====
-- What `encode` of crates/signing/src/base32.rs writes is in the alphabet, and how long it is.
use kubernix.Prelude.{
  ℕ, zero, suc, ◌+◌, ◌-◌, ◌*◌, ◌/◌, ◌%◌, ◌<◌, ◌≡◌, Bytes, true, false, [], ◌∷◌, length, lacks,
  &&-eq-true, eqb, eqb_iff, Bool-cases, inl, inr, ap, arith, refl,
}
use kubernix.Prelude.Indexed.{contains, contains-get_or}
use kubernix.Base32.{
  base32_chars, window, encode_loop, encoded_len, encode, all_in_alphabet, is_valid,
}

length-encode_loop : (bytes : Bytes) (n : ℕ) → length (encode_loop bytes n) ≡ n
unfolding encode_loop
length-encode_loop bytes zero = refl
length-encode_loop bytes (suc n) = omega (arith, length-encode_loop bytes n)

encode_loop-alphabet : (bytes : Bytes) (n : ℕ) → all_in_alphabet (encode_loop bytes n) ≡ true
unfolding encode_loop all_in_alphabet
encode_loop-alphabet bytes zero = refl
encode_loop-alphabet bytes (suc n) =
    rw (contains-get_or base32_chars (window bytes n % 32) 0 (omega arith))
      (encode_loop-alphabet bytes n)

encode-alphabet : (bytes : Bytes) → all_in_alphabet (encode bytes) ≡ true
unfolding encode all_in_alphabet
encode-alphabet bytes = ground (arith, encode_loop-alphabet bytes (encoded_len (length bytes)))

all_in_alphabet-lacks :
    (c : ℕ) (s : Bytes)
    → contains base32_chars c ≡ false
    → all_in_alphabet s ≡ true
    → lacks c s ≡ true
unfolding all_in_alphabet
all_in_alphabet-lacks c [] out h = refl
all_in_alphabet-lacks c (x ∷ s) out h =
    let (here, rest) = &&-eq-true (contains base32_chars x) (all_in_alphabet s) h in
    elim (Bool-cases (eqb x c)) [
      | inl e ↦ cc (here, out, ap (contains base32_chars) ((eqb_iff x c).0 e))
      | inr e ↦ rw e (all_in_alphabet-lacks c s out rest)
    ]

-- A character outside of the alphabet is not in an encoding.
pub encode-lacks :
    (c : ℕ) (bytes : Bytes) → contains base32_chars c ≡ false → lacks c (encode bytes) ≡ true
encode-lacks c bytes out = all_in_alphabet-lacks c (encode bytes) out (encode-alphabet bytes)

-- `encode` of a byte string that is not empty has `(8 * bytes - 1) / 5 + 1` characters, all in the
-- alphabet, so `is_valid` accepts it.
pub encode-is_valid :
    (bytes : Bytes)
    → 0 < length bytes
    → (length (encode bytes) ≡ (length bytes * 8 - 1) / 5 + 1) × (is_valid (encode bytes) ≡ true)
unfolding encode encoded_len is_valid all_in_alphabet
encode-is_valid bytes h = ground (
  arith,
  length-encode_loop bytes (encoded_len (length bytes)),
  encode_loop-alphabet bytes (encoded_len (length bytes)),
)
