-- ===== src/Prelude/Decimal.antt =====
-- The decimal digits that Rust prints for a number, and reads as a `u64`.
use Prim.Native.Nat.{ℕ, zero, suc, ◌+◌, ◌-◌, ◌*◌, ◌/◌, ◌%◌, ◌^◌, ◌<◌}
use mathlib.Core.Path.{◌≡◌, refl, ap, ◌∙◌}
use mathlib.Core.Bool.{Bool, true, false, ◌&&◌}
use mathlib.Core.Option.{Option, none, some}
use mathlib.Core.List.{[], ◌∷◌, ◌++◌}
use mathlib.Core.Logic.{inl, inr}
use native.Mathlib.Omega.{arith}
use kubernix.Prelude.Tests.{ltb, leb, eqb, if◌then◌else◌, Bool-cases}
use kubernix.Prelude.Text.{Bytes, lacks}

abbrev pub is_digit : ℕ → Bool
is_digit c = leb b'0' c && leb c b'9'

-- The digits of `n`, which has fewer than the given number of them.
unfoldable pub decimal_loop : ℕ → ℕ → Bytes
decimal_loop zero n = []
decimal_loop (suc fuel) n =
    let front = decimal_loop fuel (n / 10) in
    if ltb n 10 then (b'0' + n) ∷ [] else front ++ ((b'0' + n % 10) ∷ [])

-- `n.to_string()`
unfoldable pub decimal : ℕ → Bytes
unfolding decimal_loop
decimal n = decimal_loop (suc n) n

abbrev all_digits : Bytes → Bool
all_digits [] = true
all_digits (c ∷ s) = is_digit c && all_digits s

abbrev value : ℕ → Bytes → ℕ
value acc [] = acc
value acc (c ∷ s) = value (acc * 10 + (c - b'0')) s

abbrev unsigned : Bytes → Bytes
unsigned [] = []
unsigned (c ∷ s) = if eqb c b'+' then s else c ∷ s

abbrev checked_u64 : Bytes → Option ℕ
checked_u64 [] = none
checked_u64 (c ∷ s) =
    if all_digits (c ∷ s) && ltb (value 0 (c ∷ s)) (2 ^ 64) then some (value 0 (c ∷ s)) else none

-- `s.parse::<u64>().ok()`: a `+` may stand in front.
abbrev pub parse_u64 : Bytes → Option ℕ
parse_u64 s = checked_u64 (unsigned s)

value-snoc :
    (acc : ℕ) (s : Bytes) (c : ℕ) → value acc (s ++ (c ∷ [])) ≡ value acc s * 10 + (c - b'0')
value-snoc acc [] c = refl
value-snoc acc (d ∷ s) c = value-snoc (acc * 10 + (d - 48)) s c

all_digits-snoc :
    (s : Bytes) (c : ℕ)
    → all_digits s ≡ true
    → is_digit c ≡ true
    → all_digits (s ++ (c ∷ [])) ≡ true
all_digits-snoc [] c h g = ground (arith, g)
all_digits-snoc (d ∷ s) c h g = ground (arith, all_digits-snoc s c, h, g)

value-decimal_loop : (fuel n : ℕ) → n < fuel → value 0 (decimal_loop fuel n) ≡ n
unfolding decimal_loop
value-decimal_loop zero n h = omega (arith, h)
value-decimal_loop (suc fuel) n h = elim (Bool-cases (ltb n 10)) [
  | inl e ↦ rw e (omega arith)
  | inr e ↦
      let small : 10 < suc n = ground arith in
      rw e (
        value-snoc 0 (decimal_loop fuel (n / 10)) (b'0' + n % 10)
        ∙ omega (arith, value-decimal_loop fuel (n / 10) (omega (arith, h, small))))
]

all_digits-decimal_loop : (fuel n : ℕ) → all_digits (decimal_loop fuel n) ≡ true
unfolding decimal_loop
all_digits-decimal_loop zero n = refl
all_digits-decimal_loop (suc fuel) n = elim (Bool-cases (ltb n 10)) [
  | inl e ↦ rw e (ground arith)
  | inr e ↦ rw e (
      all_digits-snoc (decimal_loop fuel (n / 10)) (b'0' + n % 10)
        (all_digits-decimal_loop fuel (n / 10)) (ground arith))
]

pub value-decimal : (n : ℕ) → value 0 (decimal n) ≡ n
unfolding decimal
value-decimal n = value-decimal_loop (suc n) n (omega arith)

pub all_digits-decimal : (n : ℕ) → all_digits (decimal n) ≡ true
unfolding decimal
all_digits-decimal n = all_digits-decimal_loop (suc n) n

-- Two numbers with the same digits are the same.
pub decimal-injective : (m n : ℕ) → decimal m ≡ decimal n → m ≡ n
decimal-injective m n h = omega (arith, value-decimal m, value-decimal n, ap (value 0) h)

all_digits-lacks : (c : ℕ) (s : Bytes) → is_digit c ≡ false → all_digits s ≡ true → lacks c s ≡ true
all_digits-lacks c [] out h = refl
all_digits-lacks c (x ∷ s) out h = ground (arith, all_digits-lacks c s out, out, h)

-- A character that is not a digit is not in a number.
pub decimal-lacks : (c n : ℕ) → is_digit c ≡ false → lacks c (decimal n) ≡ true
decimal-lacks c n out = all_digits-lacks c (decimal n) out (all_digits-decimal n)
