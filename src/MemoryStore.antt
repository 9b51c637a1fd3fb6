-- ===== src/MemoryStore.antt =====
-- `MemoryStore` of crates/server/src/store.rs: each tenant's partition, and the objects that all
-- tenants share. A method that takes a lock runs to its end, so it is one function of the state.
-- An `Instant` is a number of nanoseconds, given to the methods that read the clock.
pub mod Methods
pub mod Sharing
pub mod History
pub mod Consistent
pub mod Vouched
pub mod Signatures
pub mod Objects
pub mod Secrets
pub mod Runs
use kubernix.Prelude.{ℕ, Option, none, some, Bool, Bytes, List, []}
use kubernix.Prelude.Map
use kubernix.Prelude.Map.{Map}
use kubernix.TenantId.{TenantId, tenant_id_eq}
use kubernix.StorePath.{StorePath}
use kubernix.Keys.{ObjectKey, Tier}
use kubernix.PathInfo.{PathInfo, RemoteObject}

-- `LocalSigner` of crates/signing/src/lib.rs, with the seed of its key.
pub record LocalSigner : Type 0 where
  pub name : Bytes
  pub key : Bytes

pub record Inner : Type 0 where
  pub paths : Map StorePath PathInfo
  pub remote : Map StorePath RemoteObject
  pub signer : Option LocalSigner
  pub tiers : Map StorePath Tier
  pub reject_unverified_pushes : Option Bool
  pub substituters : List (Bytes × Bytes)
  pub substituted_from : Map StorePath (Bytes × Bytes)
  pub negative_cache : Map Bytes ℕ

-- `Inner::default()`
abbrev pub empty_inner : Inner
empty_inner = record {
  paths = [];
  remote = [];
  signer = none;
  tiers = [];
  reject_unverified_pushes = none;
  substituters = [];
  substituted_from = [];
  negative_cache = [];
}

pub record MemoryStore : Type 0 where
  pub inner : Map TenantId Inner
  pub objects : Map ObjectKey RemoteObject
  pub capability_secret : Option Bytes

abbrev pub new : MemoryStore
new = record { inner = []; objects = []; capability_secret = none }

-- The tenant's partition. One that is not there reads as empty, and is made by a write.
unfoldable pub partition : TenantId → MemoryStore → Inner
partition tenant s = elim (Map.get tenant s.inner) [ none ↦ empty_inner | some p ↦ p ]

unfoldable pub read : {A : Type 0} → TenantId → (Inner → A) → MemoryStore → A
unfolding partition
read tenant f s = f (partition tenant s)

unfoldable pub write : {A : Type 0} → TenantId → (Inner → Inner × A) → MemoryStore → MemoryStore × A
unfolding partition
write tenant f s =
    let (p, a) = f (partition tenant s) in (record s { inner = Map.insert tenant p s.inner }, a)

-- `write` with a closure that returns nothing.
unfoldable pub update : TenantId → (Inner → Inner) → MemoryStore → MemoryStore
unfolding write
update tenant f s = (write tenant (λ inner. (f inner, tt)) s).0
