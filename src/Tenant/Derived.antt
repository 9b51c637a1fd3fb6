-- ===== src/Tenant/Derived.antt =====
-- The ids that crates/server/src/tenant.rs derives are ids that the wire check accepts.
use mathlib.Core.List.{reverse, reverse-cons}
use kubernix.Prelude.{
  ℕ, zero, suc, ◌*◌, ◌/◌, ◌%◌, ◌≤◌, ◌<◌, ◌≡◌, ◌++◌, ◌∷◌, [], List, some, Bytes, true, false, codes,
  length, length-append, take, All, map, ltb, arith, refl, sym, ap, ◌∙◌, subst, &&-eq-true,
}
use kubernix.Prelude.Indexed.{get_or}
use kubernix.Prelude.Outcome.{ok}
use kubernix.ContentPath.{hex, hex_digits}
use kubernix.TenantId.{TenantId, from_parts, from_wire, is_wire_char, all_wire_chars}
use kubernix.TenantId.Safe.{IsWireId, all_wire_chars-append, from_wire_self}
use kubernix.Tenant.{slug_char, drop_dashes, trim_dashes, slug_of, id_of, derive_id}

get_or-wire :
    (s : Bytes) (i : ℕ)
    → all_wire_chars s ≡ true
    → i < length s
    → is_wire_char (get_or s i 0) ≡ true
unfolding all_wire_chars
get_or-wire [] i h n = absurd (omega (arith, n))
get_or-wire (c ∷ s) zero h n = (&&-eq-true (is_wire_char c) (all_wire_chars s) h).0
get_or-wire (c ∷ s) (suc i) h n =
    get_or-wire s i (&&-eq-true (is_wire_char c) (all_wire_chars s) h).1 (omega (arith, n))

hex_digits-wire : all_wire_chars hex_digits ≡ true
unfolding all_wire_chars
hex_digits-wire = refl

hex-wire : (bytes : Bytes) → All (λ b. b < 256) bytes → all_wire_chars (hex bytes) ≡ true
unfolding hex all_wire_chars
hex-wire [] h = refl
hex-wire (b ∷ bytes) (small, h) = ground (
  arith,
  get_or-wire hex_digits (b / 16) hex_digits-wire (omega (arith, small)),
  get_or-wire hex_digits (b % 16) hex_digits-wire (omega arith),
  hex-wire bytes h,
)

length-hex : (bytes : Bytes) → length (hex bytes) ≡ 2 * length bytes
unfolding hex
length-hex [] = omega arith
length-hex (b ∷ bytes) = omega (arith, length-hex bytes)

take-wire : (n : ℕ) (s : Bytes) → all_wire_chars s ≡ true → all_wire_chars (take n s) ≡ true
unfolding all_wire_chars
take-wire zero s h = refl
take-wire (suc n) [] h = refl
take-wire (suc n) (c ∷ s) h =
    let (p, q) = &&-eq-true (is_wire_char c) (all_wire_chars s) h in
    ground (arith, p, take-wire n s q)

All-take : (P : ℕ → Type 0) (n : ℕ) (s : Bytes) → All P s → All P (take n s)
All-take P zero s h = tt
All-take P (suc n) [] h = tt
All-take P (suc n) (c ∷ s) (p, h) = (p, All-take P n s h)

length-take_le : (n : ℕ) (s : Bytes) → length (take n s) ≤ n
length-take_le zero s = omega arith
length-take_le (suc n) [] = omega arith
length-take_le (suc n) (c ∷ s) = omega (arith, length-take_le n s)

length-take_eq : (n : ℕ) (s : Bytes) → n ≤ length s → length (take n s) ≡ n
length-take_eq zero s h = omega arith
length-take_eq (suc n) [] h = omega (arith, h)
length-take_eq (suc n) (c ∷ s) h = omega (arith, length-take_eq n s (omega (arith, h)))

slug_char-wire : (c : ℕ) → is_wire_char (slug_char c) ≡ true
unfolding is_wire_char slug_char
slug_char-wire c = ground arith

map-wire : (s : Bytes) → all_wire_chars (map slug_char s) ≡ true
unfolding all_wire_chars
map-wire [] = refl
map-wire (c ∷ s) = ground (arith, slug_char-wire c, map-wire s)

drop_dashes-wire : (s : Bytes) → all_wire_chars s ≡ true → all_wire_chars (drop_dashes s) ≡ true
unfolding all_wire_chars
drop_dashes-wire [] h = refl
drop_dashes-wire (c ∷ s) h = ground (arith, drop_dashes-wire s, h)

length-drop_dashes : (s : Bytes) → length (drop_dashes s) ≤ length s
length-drop_dashes [] = omega arith
length-drop_dashes (c ∷ s) = ground (arith, length-drop_dashes s)

reverse-wire : (s : Bytes) → all_wire_chars s ≡ true → all_wire_chars (reverse s) ≡ true
unfolding all_wire_chars
reverse-wire [] h = refl
reverse-wire (c ∷ s) h =
    let (p, q) = &&-eq-true (is_wire_char c) (all_wire_chars s) h in
    subst (λ x. all_wire_chars x ≡ true) (sym (reverse-cons c s))
      (all_wire_chars-append (reverse s) (c ∷ []) (reverse-wire s q) (ground (arith, p)))

length-reverse_eq : (s : Bytes) → length (reverse s) ≡ length s
length-reverse_eq [] = refl
length-reverse_eq (c ∷ s) =
    ap length (reverse-cons c s)
    ∙ omega (arith, length-append (reverse s) (c ∷ []), length-reverse_eq s)

-- A slug has wire characters, and at most `SLUG_CHARS` of them. It may be empty.
slug_of-wire :
    (identity : List ℕ)
    → (all_wire_chars (slug_of identity) ≡ true) × (length (slug_of identity) ≤ 24)
unfolding slug_of trim_dashes
slug_of-wire identity =
    let s = take 24 (map slug_char identity) in
    let back = reverse (drop_dashes s) in
    (
      reverse-wire (drop_dashes back) (
          drop_dashes-wire back (
            reverse-wire (drop_dashes s)
              (drop_dashes-wire s (take-wire 24 (map slug_char identity) (map-wire identity))))),
      omega (
        arith,
        length-reverse_eq (drop_dashes back),
        length-drop_dashes back,
        length-reverse_eq (drop_dashes s),
        length-drop_dashes s,
        length-take_le 24 (map slug_char identity),
      ),
    )

from_parts-IsWireId :
    (slug hash : Bytes)
    → (all_wire_chars slug ≡ true) × (length slug ≤ 24)
    → (all_wire_chars hash ≡ true) × (length hash ≡ 16)
    → IsWireId (from_parts slug hash)
unfolding from_parts all_wire_chars is_wire_char
from_parts-IsWireId slug hash (ws, ls) (wh, lh) = record {
  chars = all_wire_chars-append slug (codes "-" ++ hash) ws wh;
  nonempty = omega (arith, length-append slug (codes "-" ++ hash));
  short = omega (arith, length-append slug (codes "-" ++ hash), ls, lh);
}

-- With a digest of at least eight bytes, every identity has an id, which the wire check accepts.
pub derive_id-from_wire :
    (digest : List ℕ → Bytes) (identity : List ℕ)
    → (8 ≤ length (digest identity)) × All (λ b. b < 256) (digest identity)
    → (id : TenantId) × (derive_id digest identity ≡ ok id) × (from_wire id.as_str ≡ some id)
unfolding derive_id id_of
derive_id-from_wire digest identity (long, small) =
    let hash = hex (take 8 (digest identity)) in
    let len : length hash ≡ 16 =
      omega
        (arith, length-hex (take 8 (digest identity)), length-take_eq 8 (digest identity) long) in
    let enough : ltb (length hash) 16 ≡ false = ground (arith, len) in
    let valid : IsWireId (from_parts (slug_of identity) (take 16 hash)) =
      from_parts-IsWireId (slug_of identity) (take 16 hash) (slug_of-wire identity) (
        take-wire 16 hash (
            hex-wire (take 8 (digest identity))
              (All-take (λ b. b < 256) 8 (digest identity) small)),
        length-take_eq 16 hash (omega (arith, len)),
      ) in
    (from_parts (slug_of identity) (take 16 hash), rw enough refl, from_wire_self _ _ refl valid)
