-- ===== src/Tenant.antt =====
-- crates/server/src/tenant.rs: the tenant of an SSH client. An identity is the list of its characters;
-- the SHA-256 digest of its UTF-8 bytes is a parameter.
pub mod Derived
use kubernix.Prelude.{
  ℕ, ◌+◌, ◌++◌, ◌∷◌, [], List, Option, none, some, Bytes, Bool, true, false, codes, leb, eqb, ltb,
  ◌&&◌, ◌||◌, length, take, if◌then◌else◌, map,
}
use mathlib.Core.List.{reverse}
use kubernix.Prelude.Outcome.{Outcome, ok, err, panic}
use kubernix.TenantId.{TenantId, from_parts}
use kubernix.ContentPath.{hex}

pub record Tenant : Type 0 where
  pub id : TenantId
  pub identity : List ℕ
  pub verified : Bool

abbrev pub hash_chars : ℕ
hash_chars = 16

abbrev pub slug_chars : ℕ
slug_chars = 24

-- `c.is_ascii_alphanumeric()`, and then `c.to_ascii_lowercase()`
unfoldable pub slug_char : ℕ → ℕ
slug_char c =
    if (leb b'a' c && leb c b'z') || (leb b'0' c && leb c b'9')
    then c
    else if leb b'A' c && leb c b'Z'
    then c + 32
    else b'-'

abbrev pub drop_dashes : Bytes → Bytes
drop_dashes [] = []
drop_dashes (c ∷ s) = if eqb c b'-' then drop_dashes s else c ∷ s

-- `slug.trim_matches('-')`
unfoldable pub trim_dashes : Bytes → Bytes
trim_dashes s = reverse (drop_dashes (reverse (drop_dashes s)))

unfoldable pub slug_of : List ℕ → Bytes
unfolding slug_char trim_dashes
slug_of identity = trim_dashes (take slug_chars (map slug_char identity))

-- `hash` of the first eight bytes; `&hash[..16]` panics if it is shorter.
unfoldable pub id_of : Bytes → Bytes → Outcome (Unit {0}) TenantId
unfolding from_parts
id_of slug hash =
    if ltb (length hash) hash_chars then panic else ok (from_parts slug (take hash_chars hash))

unfoldable pub derive_id : (List ℕ → Bytes) → List ℕ → Outcome (Unit {0}) TenantId
unfolding slug_of id_of hex
derive_id digest identity = id_of (slug_of identity) (hex (take 8 (digest identity)))

unfoldable pub identity_of : List ℕ → Option (List ℕ) → List ℕ
identity_of user none = codes "user:" ++ user
identity_of user (some fingerprint) = codes "key:" ++ fingerprint

unfoldable pub with_id : List ℕ → Bool → Outcome (Unit {0}) TenantId → Outcome (Unit {0}) Tenant
with_id identity verified (ok id) =
    ok (record { id = id; identity = identity; verified = verified })
with_id identity verified (err e) = err e
with_id identity verified panic = panic

unfoldable pub from_ssh :
    (List ℕ → Bytes) → List ℕ → Option (List ℕ) → Bool → Outcome (Unit {0}) Tenant
unfolding derive_id identity_of with_id
from_ssh digest user fingerprint verified =
    with_id (identity_of user fingerprint) verified
      (derive_id digest (identity_of user fingerprint))
