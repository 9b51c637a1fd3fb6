-- ===== src/Prelude/Text.antt =====
-- Byte strings and the operations of Rust's `str` and slices that the program uses. A Rust `String`
-- is the list of its UTF-8 bytes, and its `len` is the number of them.
use Prim.Native.Nat.{ℕ}
use Prim.Native.Char.{code}
use Prim.Native.String.{String}
use mathlib.Core.Path.{◌≡◌, refl, ap, sym, ◌∙◌}
use mathlib.Core.Bool.{Bool, true, false, not, ◌||◌, ◌&&◌}
use mathlib.Core.Option
use mathlib.Core.Option.{Option, none, some}
use mathlib.Core.List.{List, [], ◌∷◌, ◌++◌, reverse}
use native.Mathlib.Omega.{arith}
use kubernix.Prelude.Tests.{eqb, if◌then◌else◌, some-injective}

abbrev pub Bytes : Type 0
Bytes = List ℕ

-- A text literal of the source, which is ASCII, as its bytes.
abbrev pub codes : String → Bytes
codes String.[] = []
codes (String.◌∷◌ c s) = code c ∷ codes s

-- `s.strip_prefix(p)`
abbrev pub strip_prefix : Bytes → Bytes → Option Bytes
strip_prefix s [] = some s
strip_prefix [] (c ∷ p) = none
strip_prefix (x ∷ s) (c ∷ p) = if eqb x c then strip_prefix s p else none

-- `s.strip_suffix(p)`
abbrev pub strip_suffix : Bytes → Bytes → Option Bytes
strip_suffix s p = Option.map reverse (strip_prefix (reverse s) (reverse p))

-- `s.starts_with(p)`
abbrev pub starts_with : Bytes → Bytes → Bool
starts_with s p = elim (strip_prefix s p) [ none ↦ false | some r ↦ true ]

-- `s.contains(p)`, for a text `p`
abbrev pub contains_text : Bytes → Bytes → Bool
contains_text [] p = starts_with [] p
contains_text (x ∷ s) p = starts_with (x ∷ s) p || contains_text s p

-- `s.split_once(c)`: what stands before and behind the first `c`
abbrev pub split_once : ℕ → Bytes → Option (Bytes × Bytes)
split_once c [] = none
split_once c (x ∷ s) =
    if eqb x c then some ([], s) else Option.map (λ p. (x ∷ p.0, p.1)) (split_once c s)

-- `s.split(c).next()`, which is always there: what stands before the first `c`
abbrev pub split_first : ℕ → Bytes → Bytes
split_first c [] = []
split_first c (x ∷ s) = if eqb x c then [] else x ∷ split_first c s

-- `s.rsplit(c).next()`, which is always there: what stands behind the last `c`
abbrev pub rsplit_first : ℕ → Bytes → Bytes
rsplit_first c s = reverse (split_first c (reverse s))

-- `parts.join(sep)`
abbrev pub join : Bytes → List Bytes → Bytes
join sep [] = []
join sep (part ∷ []) = part
join sep (part ∷ (next ∷ parts)) = part ++ (sep ++ join sep (next ∷ parts))

-- No byte of the text is `c`.
abbrev pub lacks : ℕ → Bytes → Bool
lacks c [] = true
lacks c (x ∷ s) = not (eqb x c) && lacks c s

pub split_once-append :
    (c : ℕ) (s r : Bytes) → lacks c s ≡ true → split_once c (s ++ (c ∷ r)) ≡ some (s, r)
split_once-append c [] r h = ground arith
split_once-append c (x ∷ s) r h = ground (arith, split_once-append c s r)

-- What stands in front of the first `c`, and what behind it, are determined by the whole.
pub split-injective :
    (c : ℕ) (s t r q : Bytes)
    → lacks c s ≡ true
    → lacks c t ≡ true
    → s ++ (c ∷ r) ≡ t ++ (c ∷ q)
    → (s ≡ t) × (r ≡ q)
split-injective c s t r q h g e =
    let same =
      some-injective
        (sym (split_once-append c s r h) ∙ ap (split_once c) e ∙ split_once-append c t q g) in
    (ap (λ x. x.0) same, ap (λ x. x.1) same)

pub strip_prefix-append : (p r : Bytes) → strip_prefix (p ++ r) p ≡ some r
strip_prefix-append [] r = refl
strip_prefix-append (c ∷ p) r = ground (arith, strip_prefix-append p r)

pub strip_prefix→eq : (s p r : Bytes) → strip_prefix s p ≡ some r → s ≡ p ++ r
strip_prefix→eq s [] r h = ground arith
strip_prefix→eq [] (c ∷ p) r h = cc
strip_prefix→eq (x ∷ s) (c ∷ p) r h = ground (arith, strip_prefix→eq s p r)

-- A common front can go.
pub append-cancel : (p x y : Bytes) → p ++ x ≡ p ++ y → x ≡ y
append-cancel p x y h =
    some-injective
      (sym (strip_prefix-append p x) ∙ ap (λ s. strip_prefix s p) h ∙ strip_prefix-append p y)
