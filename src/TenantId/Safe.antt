-- ===== src/TenantId/Safe.antt =====
-- What a tenant id that passed `from_wire` (crates/types/src/tenant.rs) is made of.
use kubernix.Prelude.{
  ℕ, codes, refl, ◌<◌, ◌≤◌, ◌≡◌, ◌≢◌, ◌++◌, ◌∷◌, [], some, Bytes, true, length, ◌↔◌, All, arith,
  &&-eq-true, Bool-cases, leb, ◌&&◌, ◌⊎◌, inl, inr, sym, subst, ℕ,
}
use kubernix.TenantId.{TenantId, from_wire, is_wire_char, all_wire_chars}

-- Neither `/` nor `.`, the characters by which a text could leave its object-key prefix.
abbrev pub IsKeySafe : Bytes → Type 0
IsKeySafe = All (λ c. (c ≢ b'/') × (c ≢ b'.'))

pub record IsWireId (t : TenantId) : Type 0 where
  pub chars : all_wire_chars t.as_str ≡ true
  pub nonempty : 0 < length t.as_str
  pub short : length t.as_str ≤ 128

wire_char-safe : (c : ℕ) → is_wire_char c ≡ true → (c ≢ b'/') × (c ≢ b'.')
unfolding is_wire_char
wire_char-safe c h = (λ e. ground arith, λ e. ground arith)

pub all_wire_chars-safe : (s : Bytes) → all_wire_chars s ≡ true → IsKeySafe s
unfolding all_wire_chars
all_wire_chars-safe [] h = tt
all_wire_chars-safe (c ∷ s) h =
    let (p, q) = &&-eq-true (is_wire_char c) (all_wire_chars s) h in
    (wire_char-safe c p, all_wire_chars-safe s q)

pub all_wire_chars-append :
    (s t : Bytes)
    → all_wire_chars s ≡ true
    → all_wire_chars t ≡ true
    → all_wire_chars (s ++ t) ≡ true
unfolding all_wire_chars
all_wire_chars-append [] t hs ht = ht
all_wire_chars-append (c ∷ s) t hs ht =
    let (p, q) = &&-eq-true (is_wire_char c) (all_wire_chars s) hs in
    ground (arith, p, all_wire_chars-append s t q ht)

-- What stands before the first `/` is determined.
pub prefix_unique :
    (s t r q : Bytes)
    → IsKeySafe s
    → IsKeySafe t
    → s ++ (codes "/" ++ r) ≡ t ++ (codes "/" ++ q)
    → s ≡ t
prefix_unique [] [] r q hs ht e = refl
prefix_unique [] (d ∷ t) r q hs (h, ht) e = absurd (h.0 (cc e))
prefix_unique (c ∷ s) [] r q (h, hs) ht e = absurd (h.0 (cc e))
prefix_unique (c ∷ s) (d ∷ t) r q (h, hs) (g, ht) e = cc (prefix_unique s t r q hs ht (cc e))

-- A lower-case letter, a digit or a dash.
abbrev pub IsIdChar : ℕ → Type 0
IsIdChar c = ((b'a' ≤ c) × (c ≤ b'z')) ⊎ (((b'0' ≤ c) × (c ≤ b'9')) ⊎ (c ≡ b'-'))

-- A text of 1 to 128 of these characters.
pub record IsIdText (id : Bytes) : Type 0 where
  pub chars : All IsIdChar id
  pub nonempty : 1 ≤ length id
  pub short : length id ≤ 128

is_wire_char-IsIdChar : (c : ℕ) → is_wire_char c ≡ true → IsIdChar c
unfolding is_wire_char
is_wire_char-IsIdChar c h = elim (Bool-cases (leb b'a' c && leb c b'z')) [
  | inl l ↦ inl (ground (arith, l), ground (arith, l))
  | inr n ↦ elim (Bool-cases (leb b'0' c && leb c b'9')) [
    | inl d ↦ inr (inl (ground (arith, d), ground (arith, d)))
    | inr m ↦ inr (inr (ground (arith, h, n, m)))
  ]
]

IsIdChar-is_wire_char : (c : ℕ) → IsIdChar c → is_wire_char c ≡ true
unfolding is_wire_char
IsIdChar-is_wire_char c (inl (lo, hi)) = ground arith
IsIdChar-is_wire_char c (inr (inl (lo, hi))) = ground arith
IsIdChar-is_wire_char c (inr (inr e)) = ground arith

all_wire_chars-IsIdChar : (s : Bytes) → all_wire_chars s ≡ true → All IsIdChar s
unfolding all_wire_chars
all_wire_chars-IsIdChar [] h = tt
all_wire_chars-IsIdChar (c ∷ s) h =
    let (p, q) = &&-eq-true (is_wire_char c) (all_wire_chars s) h in
    (is_wire_char-IsIdChar c p, all_wire_chars-IsIdChar s q)

IsIdChar-all_wire_chars : (s : Bytes) → All IsIdChar s → all_wire_chars s ≡ true
unfolding all_wire_chars
IsIdChar-all_wire_chars [] h = refl
IsIdChar-all_wire_chars (c ∷ s) (h, hs) =
    ground (arith, IsIdChar-is_wire_char c h, IsIdChar-all_wire_chars s hs)

pub from_wire-IsWireId :
    (id : Bytes) (t : TenantId) → from_wire id ≡ some t → (t.as_str ≡ id) × IsWireId t
unfolding from_wire
from_wire-IsWireId id t h = ground arith

pub from_wire_self :
    (id : Bytes) (t : TenantId) → t.as_str ≡ id → IsWireId t → from_wire id ≡ some t
unfolding from_wire
from_wire_self id t e w = ground arith

from_wire_sound :
    (id : Bytes) (t : TenantId) → from_wire id ≡ some t → (t.as_str ≡ id) × IsIdText id
from_wire_sound id t h =
    let (e, w) = from_wire-IsWireId id t h in
    (
      e,
      subst IsIdText e (record {
        chars = all_wire_chars-IsIdChar t.as_str w.chars;
        nonempty = w.nonempty;
        short = w.short;
      }),
    )

from_wire_complete :
    (id : Bytes) (t : TenantId) → t.as_str ≡ id → IsIdText id → from_wire id ≡ some t
from_wire_complete id t e w =
    let v : IsIdText t.as_str = subst IsIdText (sym e) w in
    from_wire_self id t e (record {
      chars = IsIdChar-all_wire_chars t.as_str v.chars;
      nonempty = v.nonempty;
      short = v.short;
    })

-- `from_wire` accepts exactly the texts of 1 to 128 lower-case letters, digits and dashes, and
-- returns the id of that text.
pub from_wire_iff :
    (id : Bytes) (t : TenantId) → (from_wire id ≡ some t) ↔ ((t.as_str ≡ id) × IsIdText id)
from_wire_iff id t = (from_wire_sound id t, λ (e, w). from_wire_complete id t e w)
