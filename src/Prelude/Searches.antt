-- ===== src/Prelude/Searches.antt =====
-- What the searches of `Text` find: fronts, ends and parts of a text.
use Prim.Native.Nat.{ℕ}
use mathlib.Core.Path.{◌≡◌, sym, ap, ◌∙◌, subst}
use mathlib.Core.Logic.{inl, inr}
use mathlib.Core.Bool.{true}
use mathlib.Core.Option.{some}
use mathlib.Core.List.{[], ◌∷◌, ◌++◌, reverse, reverse-append, reverse-reverse}
use kubernix.Prelude.Tests.{eqb, eqb_iff, Bool-cases, Option-cases, some-injective}
use kubernix.Prelude.Text.{
  Bytes, strip_prefix, strip_suffix, starts_with, contains_text, split_once, strip_prefix-append,
  strip_prefix→eq,
}
use kubernix.Prelude.Splits.{Without}

-- `p` stands in `s`.
abbrev pub Occurs : Bytes → Bytes → Type 0
Occurs p s = (front : Bytes) × (back : Bytes) × (s ≡ front ++ (p ++ back))

pub starts_with→eq : (s p : Bytes) → starts_with s p ≡ true → (r : Bytes) × (s ≡ p ++ r)
starts_with→eq s p h = elim (Option-cases (strip_prefix s p)) [
  | inl n ↦ cc (rw (n, starts_with) at h)
  | inr (r, e) ↦ (r, strip_prefix→eq s p r e)
]

pub eq→starts_with : (s p r : Bytes) → s ≡ p ++ r → starts_with s p ≡ true
eq→starts_with s p r e = rw e (rw (strip_prefix-append p r, starts_with))

pub contains_text→Occurs : (s p : Bytes) → contains_text s p ≡ true → Occurs p s
contains_text→Occurs [] p h = let (r, e) = starts_with→eq [] p h in ([], r, e)
contains_text→Occurs (x ∷ s) p h = elim (Bool-cases (starts_with (x ∷ s) p)) [
  | inl here ↦ let (r, e) = starts_with→eq (x ∷ s) p here in ([], r, e)
  | inr n ↦
      let (front, back, e) = contains_text→Occurs s p (rw n at h) in
      (x ∷ front, back, ap (λ t. x ∷ t) e)
]

pub Occurs→contains_text :
    (s p front back : Bytes) → s ≡ front ++ (p ++ back) → contains_text s p ≡ true
Occurs→contains_text [] p [] back e = eq→starts_with [] p back e
Occurs→contains_text (x ∷ s) p [] back e = rw (eq→starts_with (x ∷ s) p back e)
Occurs→contains_text [] p (c ∷ front) back e = cc e
Occurs→contains_text (x ∷ s) p (c ∷ front) back e = elim (Bool-cases (starts_with (x ∷ s) p)) [
  | inl here ↦ rw here
  | inr n ↦ rw n (Occurs→contains_text s p front back (cc e))
]

pub strip_suffix→eq : (s p r : Bytes) → strip_suffix s p ≡ some r → s ≡ r ++ p
strip_suffix→eq s p r h = elim (Option-cases (strip_prefix (reverse s) (reverse p))) [
  | inl n ↦ cc (rw n at h)
  | inr (q, e) ↦
      let back : reverse q ≡ r = some-injective (rw e at h) in
      sym (reverse-reverse s)
      ∙ ap reverse (strip_prefix→eq (reverse s) (reverse p) q e)
      ∙ reverse-append (reverse p) q
      ∙ ap (λ x. x ++ reverse (reverse p)) back
      ∙ ap (λ x. r ++ x) (reverse-reverse p)
]

pub strip_suffix-append : (r p : Bytes) → strip_suffix (r ++ p) p ≡ some r
strip_suffix-append r p =
    rw (reverse-append r p)
      (rw (strip_prefix-append (reverse p) (reverse r)) (rw (reverse-reverse r)))

pub split_once→eq :
    (c : ℕ) (s h t : Bytes) → split_once c s ≡ some (h, t) → (s ≡ h ++ c ∷ t) × Without c h
split_once→eq c [] h t e = cc e
split_once→eq c (x ∷ s) h t e = elim (Bool-cases (eqb x c)) [
  | inl same ↦
      let q = some-injective (rw same at e) in
      let qh : [] ≡ h = ap (λ p. p.0) q in
      let qt : s ≡ t = ap (λ p. p.1) q in
      (subst (λ g. x ∷ s ≡ g ++ c ∷ t) qh (cc ((eqb_iff x c).0 same, qt)), subst (Without c) qh tt)
  | inr other ↦ elim (Option-cases (split_once c s)) [
    | inl n ↦ cc (rw (other, n) at e)
    | inr ((g, r), f) ↦
        let q = some-injective (rw (other, f) at e) in
        let qh : x ∷ g ≡ h = ap (λ p. p.0) q in
        let qt : r ≡ t = ap (λ p. p.1) q in
        let (whole, out) = split_once→eq c s g r f in
        (
          subst (λ k. x ∷ s ≡ k ++ c ∷ t) qh (ap (λ l. x ∷ l) (whole ∙ ap (λ l. g ++ c ∷ l) qt)),
          subst (Without c) qh ((λ same. cc (other, (eqb_iff x c).1 same)), out),
        )
  ]
]
