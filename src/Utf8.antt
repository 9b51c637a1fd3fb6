-- ===== src/Utf8.antt =====
-- UTF-8 as Rust's standard library reads it (`str::from_utf8`, `String::from_utf8_lossy`), which
-- crates/types/src/wire.rs calls on the bytes of a wire string.
use kubernix.Prelude.{
  ℕ, zero, suc, ◌+◌, ◌≤◌, ◌<◌, ◌≡◌, refl, ap, Bool, true, false, ◌&&◌, [], ◌∷◌, ◌++◌, Bytes, length,
  take, drop, ltb, leb, if◌then◌else◌, arith, All, &&-eq-true,
}

abbrev between : ℕ → ℕ → ℕ → Bool
between lo b hi = leb lo b && leb b hi

-- A continuation byte.
abbrev is_cont : ℕ → Bool
is_cont b = between 0x80 b 0xbf

-- The length of the next chunk, and whether it is a character: an invalid chunk is as long as the
-- bytes of it that could begin one.
abbrev Chunk : Type 0
Chunk = ℕ × Bool

last_byte : ℕ → Bytes → Chunk
last_byte n [] = (n, false)
last_byte n (b ∷ s) = if is_cont b then (n + 1, true) else (n, false)

last_two : ℕ → Bytes → Chunk
unfolding last_byte
last_two n [] = (n, false)
last_two n (b ∷ s) = if is_cont b then last_byte (n + 1) s else (n, false)

-- The second byte that a first byte of a three-byte or four-byte character allows.
second_of_three : ℕ → ℕ → Bool
second_of_three b c =
    if leb b 0xe0
    then between 0xa0 c 0xbf
    else if leb 0xed b && leb b 0xed
    then between 0x80 c 0x9f
    else is_cont c

second_of_four : ℕ → ℕ → Bool
second_of_four b c =
    if leb b 0xf0
    then between 0x90 c 0xbf
    else if leb 0xf4 b
    then between 0x80 c 0x8f
    else is_cont c

three_bytes : ℕ → Bytes → Chunk
unfolding last_byte second_of_three
three_bytes b [] = (1, false)
three_bytes b (c ∷ s) = if second_of_three b c then last_byte 2 s else (1, false)

four_bytes : ℕ → Bytes → Chunk
unfolding last_two second_of_four
four_bytes b [] = (1, false)
four_bytes b (c ∷ s) = if second_of_four b c then last_two 2 s else (1, false)

chunk : ℕ → Bytes → Chunk
unfolding last_byte three_bytes four_bytes
chunk b s =
    if ltb b 0x80
    then (1, true)
    else if between 0xc2 b 0xdf
    then last_byte 1 s
    else if between 0xe0 b 0xef
    then three_bytes b s
    else if between 0xf0 b 0xf4
    then four_bytes b s
    else (1, false)

-- U+FFFD
abbrev replacement : Bytes
replacement = 0xef ∷ 0xbf ∷ 0xbd ∷ []

-- A chunk has a byte at least, so `length s` rounds are enough.
lossy_loop : ℕ → Bytes → Bytes
unfolding chunk
lossy_loop zero s = []
lossy_loop (suc n) [] = []
lossy_loop (suc n) (b ∷ s) =
    let c = chunk b s in
    let rest = lossy_loop n (drop c.0 (b ∷ s)) in
    (if c.1 then take c.0 (b ∷ s) else replacement) ++ rest

unfoldable pub from_utf8_lossy : Bytes → Bytes
unfolding lossy_loop
from_utf8_lossy s = lossy_loop (length s) s

valid_loop : ℕ → Bytes → Bool
unfolding chunk
valid_loop zero s = true
valid_loop (suc n) [] = true
valid_loop (suc n) (b ∷ s) =
    let c = chunk b s in let rest = valid_loop n (drop c.0 (b ∷ s)) in c.1 && rest

unfoldable pub is_utf8 : Bytes → Bool
unfolding valid_loop
is_utf8 s = valid_loop (length s) s

abbrev pub IsUtf8 : Bytes → Type 0
IsUtf8 s = is_utf8 s ≡ true

chunk_pos : (b : ℕ) (s : Bytes) → 0 < (chunk b s).0
unfolding chunk
chunk_pos b [] = ground arith
chunk_pos b (c ∷ []) = ground arith
chunk_pos b (c ∷ d ∷ []) = ground arith
chunk_pos b (c ∷ d ∷ e ∷ s) = ground arith

take-drop : (n : ℕ) (s : Bytes) → take n s ++ drop n s ≡ s
take-drop zero s = refl
take-drop (suc n) [] = refl
take-drop (suc n) (b ∷ s) = ap (λ l. b ∷ l) (take-drop n s)

length-drop_le : (n : ℕ) (s : Bytes) → length (drop n s) ≤ length s
length-drop_le zero s = omega arith
length-drop_le (suc n) [] = omega arith
length-drop_le (suc n) (b ∷ s) = omega (arith, length-drop_le n s)

drop_shorter :
    (n k : ℕ) (b : ℕ) (s : Bytes) → 0 < k → length (b ∷ s) ≤ suc n → length (drop k (b ∷ s)) ≤ n
drop_shorter n zero b s p h = absurd (omega arith)
drop_shorter n (suc k) b s p h = omega (arith, length-drop_le k s)

lossy_loop_valid : (n : ℕ) (s : Bytes) → length s ≤ n → valid_loop n s ≡ true → lossy_loop n s ≡ s
unfolding lossy_loop valid_loop
lossy_loop_valid zero [] h v = refl
lossy_loop_valid zero (b ∷ s) h v = absurd (omega arith)
lossy_loop_valid (suc n) [] h v = refl
lossy_loop_valid (suc n) (b ∷ s) h v =
    let k = (chunk b s).0 in
    let (whole, others) = &&-eq-true (chunk b s).1 (valid_loop n (drop k (b ∷ s))) v in
    rw whole (
      rw (lossy_loop_valid n (drop k (b ∷ s)) (drop_shorter n k b s (chunk_pos b s) h) others)
        (take-drop k (b ∷ s)))

-- A valid text is read as it is.
pub from_utf8_lossy_valid : (s : Bytes) → IsUtf8 s → from_utf8_lossy s ≡ s
unfolding from_utf8_lossy is_utf8
from_utf8_lossy_valid s v = lossy_loop_valid (length s) s (omega arith) v

ascii_loop : (n : ℕ) (s : Bytes) → All (λ b. b < 128) s → valid_loop n s ≡ true
unfolding valid_loop
ascii_loop zero s a = refl
ascii_loop (suc n) [] a = refl
ascii_loop (suc n) (b ∷ s) (h, a) = ground (arith, ascii_loop n s a)

pub ascii-IsUtf8 : (s : Bytes) → All (λ b. b < 128) s → IsUtf8 s
unfolding is_utf8
ascii-IsUtf8 s a = ascii_loop (length s) s a
