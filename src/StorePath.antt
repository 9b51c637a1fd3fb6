-- ===== src/StorePath.antt =====
-- crates/types/src/store_path.rs: store paths without their store directory.
pub mod Rooted
use kubernix.Prelude.{
  ℕ, ◌≡◌, ◌++◌, ◌∷◌, [], Option, none, some, Bytes, Bool, true, false, codes, strip_prefix, ◌↔◌,
  rsplit_first, split_once, split_first, length, eqb, ◌&&◌, not, if◌then◌else◌, ap,
}
use kubernix.Prelude.Eq.{Eq, ◌==◌, nat_eq, list_eq, list_beq_iff}
use kubernix.Prelude.Outcome.{Outcome, ok_or}

pub record StorePath : Type 0 where
  pub as_str : Bytes

-- The derived `PartialEq`: that of the text.
abbrev pub StorePath-beq : StorePath → StorePath → Bool
StorePath-beq p q = p.as_str == q.as_str

pub StorePath-beq_iff : (p q : StorePath) → (StorePath-beq p q ≡ true) ↔ (p ≡ q)
StorePath-beq_iff p q =
    let e = list_beq_iff p.as_str q.as_str in
    (λ h i. record { as_str = e.0 h i }, λ h. e.1 (ap (λ r. r.as_str) h))

instance abbrev pub store_path_eq : Eq StorePath
store_path_eq = record { beq = StorePath-beq; beq_iff = StorePath-beq_iff }

pub record NotRooted : Type 0 where
  pub store_dir : Bytes
  pub full : Bytes

-- `full.strip_prefix(store_dir)?.strip_prefix('/')?`
unfoldable pub from_full : Bytes → Bytes → Option StorePath
from_full store_dir full = elim (strip_prefix full store_dir) [
  | none ↦ none
  | some rest ↦ elim (strip_prefix rest (codes "/")) [
    | none ↦ none
    | some bare ↦ some (record { as_str = bare })
  ]
]

unfoldable pub to_full : StorePath → Bytes → Bytes
to_full path store_dir = store_dir ++ (codes "/" ++ path.as_str)

unfoldable pub from_full_or_err : Bytes → Bytes → Outcome NotRooted StorePath
unfolding from_full
from_full_or_err store_dir full =
    ok_or (record { store_dir = store_dir; full = full }) (from_full store_dir full)

-- What stands behind the last `/`: `self.0.rsplit('/').next()`, which is always there.
abbrev base : StorePath → Bytes
base path = rsplit_first b'/' path.as_str

unfoldable pub is_empty : Bytes → Bool
is_empty s = eqb (length s) 0

unfoldable pub name : StorePath → Option Bytes
unfolding is_empty
name path = elim (split_once b'-' (base path)) [
  | none ↦ none
  | some (hash, rest) ↦ if eqb (length hash) 32 && not (is_empty rest) then some rest else none
]

unfoldable pub hash_part : StorePath → Option Bytes
hash_part path =
    let hash = split_first b'-' (base path) in if eqb (length hash) 32 then some hash else none
