-- ===== src/TenantId.antt =====
-- crates/types/src/tenant.rs: a tenant's identifier, and the check of one that came over the wire.
-- A text is the list of its UTF-8 bytes. The program tests characters: those it accepts are ASCII,
-- and every byte of any other character is 0x80 or more, so the test of the bytes agrees.
pub mod Safe
use kubernix.Prelude.{
  ℕ, ◌≡◌, ◌++◌, ◌∷◌, [], Option, none, some, Bytes, Bool, true, false, codes, length, eqb, leb,
  ◌&&◌, ◌||◌, not, if◌then◌else◌, ap, ◌↔◌, List,
}
use kubernix.Prelude.Eq.{Eq, ◌==◌, nat_eq, list_eq, list_beq_iff}
use kubernix.Prelude.Outcome.{Outcome, ok_or}

pub record TenantId : Type 0 where
  pub as_str : Bytes

abbrev pub TenantId-beq : TenantId → TenantId → Bool
TenantId-beq a b = a.as_str == b.as_str

pub TenantId-beq_iff : (a b : TenantId) → (TenantId-beq a b ≡ true) ↔ (a ≡ b)
TenantId-beq_iff a b =
    let e = list_beq_iff a.as_str b.as_str in
    (λ h i. record { as_str = e.0 h i }, λ h. e.1 (ap (λ r. r.as_str) h))

instance abbrev pub tenant_id_eq : Eq TenantId
tenant_id_eq = record { beq = TenantId-beq; beq_iff = TenantId-beq_iff }

unfoldable pub from_parts : Bytes → Bytes → TenantId
from_parts slug hash_hex = record { as_str = slug ++ (codes "-" ++ hash_hex) }

-- `c.is_ascii_lowercase() || c.is_ascii_digit() || c == '-'`
unfoldable pub is_wire_char : ℕ → Bool
is_wire_char c = (leb b'a' c && leb c b'z') || (leb b'0' c && leb c b'9') || eqb c b'-'

unfoldable pub all_wire_chars : Bytes → Bool
unfolding is_wire_char
all_wire_chars [] = true
all_wire_chars (c ∷ s) = is_wire_char c && all_wire_chars s

unfoldable pub from_wire : Bytes → Option TenantId
unfolding all_wire_chars
from_wire id =
    let well_formed = not (eqb (length id) 0) && leb (length id) 128 && all_wire_chars id in
    if well_formed then some (record { as_str = id }) else none

pub record InvalidTenantId : Type 0 where
  pub text : Bytes

unfoldable pub from_str : Bytes → Outcome InvalidTenantId TenantId
unfolding from_wire
from_str s = ok_or (record { text = s }) (from_wire s)
