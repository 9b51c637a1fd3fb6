-- ===== src/Prelude/Splits.antt =====
-- Texts that a character is not in, and what splitting them gives.
use Prim.Native.Nat.{ℕ}
use mathlib.Core.Path.{◌≡◌, refl, sym, ap, ◌∙◌, subst}
use mathlib.Core.Bool.{true}
use mathlib.Core.Option.{some}
use mathlib.Core.List.{
  [], ◌∷◌, ◌++◌, reverse, reverse-cons, reverse-append, reverse-reverse, append_assoc,
}
use native.Mathlib.Omega.{arith}
use kubernix.Prelude.Lists.{All, All-append}
use kubernix.Prelude.Text.{Bytes, split_first, rsplit_first, split_once, lacks}

abbrev pub Without : ℕ → Bytes → Type 0
Without c = All (λ x. x ≡ c → ⊥)

pub lacks→Without : (c : ℕ) (s : Bytes) → lacks c s ≡ true → Without c s
lacks→Without c [] h = tt
lacks→Without c (x ∷ s) h = (λ e. ground (arith, h, e), lacks→Without c s (ground (arith, h)))

pub split_first-Without : (c : ℕ) (s : Bytes) → Without c s → split_first c s ≡ s
split_first-Without c [] h = refl
split_first-Without c (x ∷ s) (n, h) = ground (arith, split_first-Without c s h, n)

Without-reverse : (c : ℕ) (s : Bytes) → Without c s → Without c (reverse s)
Without-reverse c [] h = tt
Without-reverse c (x ∷ s) (n, h) =
    subst (Without c) (sym (reverse-cons x s))
      (All-append (λ y. y ≡ c → ⊥) (reverse s) (x ∷ []) (Without-reverse c s h) (n, tt))

pub rsplit_first-Without : (c : ℕ) (s : Bytes) → Without c s → rsplit_first c s ≡ s
rsplit_first-Without c s h =
    ap reverse (split_first-Without c (reverse s) (Without-reverse c s h)) ∙ reverse-reverse s

pub split_once-Without :
    (c : ℕ) (h t : Bytes) → Without c h → split_once c (h ++ c ∷ t) ≡ some (h, t)
split_once-Without c [] t w = ground arith
split_once-Without c (x ∷ h) t (n, w) = ground (arith, split_once-Without c h t w, n)

pub split_first-front : (c : ℕ) (h t : Bytes) → Without c h → split_first c (h ++ c ∷ t) ≡ h
split_first-front c [] t w = ground arith
split_first-front c (x ∷ h) t (n, w) = ground (arith, split_first-front c h t w, n)

-- What stands behind the last `c`.
pub rsplit_first-append : (c : ℕ) (p f : Bytes) → Without c f → rsplit_first c (p ++ (c ∷ f)) ≡ f
rsplit_first-append c p f h =
    let turned : reverse (p ++ (c ∷ f)) ≡ reverse f ++ (c ∷ reverse p) =
      reverse-append p (c ∷ f)
      ∙ ap (λ x. x ++ reverse p) (reverse-cons c f)
      ∙ append_assoc (reverse f) (c ∷ []) (reverse p) in
    ap (λ x. reverse (split_first c x)) turned
    ∙ ap reverse (split_first-front c (reverse f) (reverse p) (Without-reverse c f h))
    ∙ reverse-reverse f
