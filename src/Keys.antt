-- ===== src/Keys.antt =====
-- `Tier` and the object keys of crates/server/src/store.rs.
pub mod Separate
pub mod Places
use kubernix.Prelude.{
  ◌≡◌, ◌++◌, Option, none, some, Bytes, Bool, true, false, codes, ap, ◌↔◌, if◌then◌else◌, arith,
}
use kubernix.Prelude.Eq.{Eq, ◌==◌, nat_eq, list_eq, list_beq_iff}
use kubernix.TenantId.{TenantId}
use kubernix.StorePath.{StorePath, hash_part}

-- crates/types/src/object_key.rs
pub record ObjectKey : Type 0 where
  pub as_str : Bytes

abbrev pub ObjectKey-beq : ObjectKey → ObjectKey → Bool
ObjectKey-beq a b = a.as_str == b.as_str

pub ObjectKey-beq_iff : (a b : ObjectKey) → (ObjectKey-beq a b ≡ true) ↔ (a ≡ b)
ObjectKey-beq_iff a b =
    let e = list_beq_iff a.as_str b.as_str in
    (λ h i. record { as_str = e.0 h i }, λ h. e.1 (ap (λ r. r.as_str) h))

instance abbrev pub object_key_eq : Eq ObjectKey
object_key_eq = record { beq = ObjectKey-beq; beq_iff = ObjectKey-beq_iff }

pub data Tier : Type 0 where
  verified built quarantined substituted : Tier

abbrev pub Tier-beq : Tier → Tier → Bool
Tier-beq verified verified = true
Tier-beq built built = true
Tier-beq quarantined quarantined = true
Tier-beq substituted substituted = true
Tier-beq _ _ = false

pub Tier-beq_iff : (a b : Tier) → (Tier-beq a b ≡ true) ↔ (a ≡ b)
Tier-beq_iff a b = (λ h. ground arith, λ h. ground arith)

instance abbrev pub tier_eq : Eq Tier
tier_eq = record { beq = Tier-beq; beq_iff = Tier-beq_iff }

unfoldable pub is_vouchable : Tier → Bool
is_vouchable verified = true
is_vouchable built = true
is_vouchable quarantined = false
is_vouchable substituted = false

unfoldable pub as_str : Tier → Bytes
as_str verified = codes "verified"
as_str built = codes "built"
as_str quarantined = codes "quarantined"
as_str substituted = codes "substituted"

-- An unknown text is `quarantined`.
unfoldable pub from_str : Bytes → Tier
from_str s =
    if s == codes "verified"
    then verified
    else if s == codes "built"
    then built
    else if s == codes "substituted"
    then substituted
    else quarantined

abbrev object_key : Bytes → Bytes → ObjectKey
object_key front hash = record { as_str = front ++ (hash ++ codes ".nar.zst") }

unfoldable pub tier_key : TenantId → Tier → Bytes → ObjectKey
tier_key tenant verified hash = object_key (codes "nar/") hash
tier_key tenant built hash = object_key (tenant.as_str ++ codes "/nar/") hash
tier_key tenant quarantined hash = object_key (tenant.as_str ++ codes "/untrusted/nar/") hash
tier_key tenant substituted hash =
    object_key (tenant.as_str ++ codes "/untrusted-substituted/nar/") hash

unfoldable pub nar_key : TenantId → Tier → StorePath → Option ObjectKey
unfolding tier_key
nar_key tenant tier store_path = elim (hash_part store_path) [
  | none ↦ none
  | some hash ↦ some (tier_key tenant tier hash)
]

unfoldable pub substituted_nar_key : Bytes → StorePath → Option ObjectKey
substituted_nar_key source_slug store_path = elim (hash_part store_path) [
  | none ↦ none
  | some hash ↦ some (record {
    as_str = codes "substituted/" ++ (source_slug ++ (codes "/nar/" ++ (hash ++ codes ".nar.zst")));
  })
]

unfoldable pub log_key : TenantId → StorePath → Option ObjectKey
log_key tenant drv_path = elim (hash_part drv_path) [
  | none ↦ none
  | some hash ↦ some (record { as_str = tenant.as_str ++ (codes "/log/" ++ hash) })
]
