-- ===== src/Base32.antt =====
-- crates/signing/src/base32.rs: Nix's base32.
pub mod Alphabet
use Prim.Native.Nat.{bit_or}
use kubernix.Prelude.{
  Option, none, some, replicate, suc, ltb, leb, ℕ, zero, ◌+◌, ◌-◌, ◌*◌, ◌/◌, ◌%◌, ◌^◌, ◌≡◌, ◌++◌,
  ◌∷◌, [], Bytes, Bool, true, false, codes, length, eqb, ◌&&◌, ◌||◌, not, if◌then◌else◌, List,
}
use kubernix.Prelude.Indexed.{set, index_of, get_or, contains}

abbrev pub base32_chars : Bytes
base32_chars = codes "0123456789abcdfghijklmnpqrsvwxyz"

-- The 32-bit word `(current >> j) | next` of round `n`. `bytes[i + 1] << (8 - j)` is below 2 ^ 16.
unfoldable pub window : Bytes → ℕ → ℕ
window bytes n =
    let i = n * 5 / 8 in
    let j = n * 5 % 8 in
    let next = if leb (length bytes) (i + 1) then 0 else get_or bytes (i + 1) 0 * 2 ^ (8 - j) in
    bit_or (get_or bytes i 0 / 2 ^ j) next

-- `for n in (0..len).rev()`, with the rounds that are left. `c & 0x1f` is `c % 32`.
unfoldable pub encode_loop : Bytes → ℕ → Bytes
unfolding window
encode_loop bytes zero = []
encode_loop bytes (suc n) = get_or base32_chars (window bytes n % 32) 0 ∷ encode_loop bytes n

-- The number of characters of `n` bytes, for `0 < n`.
unfoldable pub encoded_len : ℕ → ℕ
encoded_len n = (n * 8 - 1) / 5 + 1

unfoldable pub encode : Bytes → Bytes
unfolding encode_loop encoded_len
encode bytes = if eqb (length bytes) 0 then [] else encode_loop bytes (encoded_len (length bytes))

unfoldable pub all_in_alphabet : Bytes → Bool
all_in_alphabet [] = true
all_in_alphabet (b ∷ s) = contains base32_chars b && all_in_alphabet s

unfoldable pub is_valid : Bytes → Bool
unfolding all_in_alphabet
is_valid s = not (eqb (length s) 0) && all_in_alphabet s

-- The round of the character `digit` for `n`: `none` where the source returns `None`.
unfoldable pub decode_round : ℕ → ℕ → ℕ → Bytes → Option Bytes
decode_round out_len n digit out =
    let i = n * 5 / 8 in
    let j = n * 5 % 8 in
    let overflow = digit / 2 ^ (8 - j) in
    let first = set out i (bit_or (get_or out i 0) (digit * 2 ^ j % 256)) in
    if leb out_len i
    then (if eqb digit 0 then some out else none)
    else if ltb (i + 1) out_len
    then some (set first (i + 1) (bit_or (get_or first (i + 1) 0) (overflow % 256)))
    else if eqb overflow 0
    then some first
    else none

-- The loop over the characters, the first of which is for `n - 1` of the `n` that are left.
unfoldable pub decode_loop : ℕ → Bytes → Bytes → Option Bytes
decode_loop out_len [] out = some out
decode_loop out_len (ch ∷ s) out = elim (index_of base32_chars ch) [
  | none ↦ none
  | some digit ↦ elim (decode_round out_len (length s) digit out) [
    | none ↦ none
    | some out' ↦ decode_loop out_len s out'
  ]
]

unfoldable pub decode : Bytes → ℕ → Option Bytes
decode s out_len =
    if eqb out_len 0
    then (if eqb (length s) 0 then some [] else none)
    else if not (eqb (length s) (encoded_len out_len))
    then none
    else decode_loop out_len s (replicate out_len 0)
