-- ===== src/MemoryStore/Secrets.antt =====
-- The keys that `MemoryStore` (crates/server/src/store.rs) makes on first use.
use kubernix.Prelude.{ℕ, some, Bytes, ◌≡◌, refl, ◌∙◌, ap, Option-cases, inl, inr}
use kubernix.TenantId.{TenantId}
use kubernix.MemoryStore.{LocalSigner, Inner, MemoryStore, partition}
use kubernix.MemoryStore.Sharing.{
  give_found, give_signer, signer, current_capability_secret, capability_secret, key_name_for,
}
use kubernix.MemoryStore.History.{partition-write_self}

-- The second time, the key is there.
give_signer_twice :
    (seed seed' : Bytes) (t : TenantId) (inner : Inner)
    → (key : LocalSigner) × ((give_signer seed t inner).1 ≡ some key)
      × ((give_signer seed' t (give_signer seed t inner).0).1 ≡ some key)
unfolding give_signer give_found
give_signer_twice seed seed' t inner = elim (Option-cases inner.signer) [
  | inl e ↦ (
    record { name = key_name_for t; key = seed },
    rw (e, give_found) refl,
    rw (e, give_found) refl,
  )
  | inr (key, e) ↦ (key, rw (e, give_found) refl, rw (e, give_found) refl)
]

signer-partition :
    (seed : Bytes) (t : TenantId) (s : MemoryStore)
    → ((signer seed t s).1 ≡ (give_signer seed t (partition t s)).1)
      × (partition t (signer seed t s).0 ≡ (give_signer seed t (partition t s)).0)
unfolding signer
signer-partition seed t s = (refl, partition-write_self t (give_signer seed t) s)

-- A tenant's signing key is made once: `signer` returns a key, and the same key when it is called
-- again, whatever seed would be drawn then.
pub signer-stable :
    (seed seed' : Bytes) (t : TenantId) (s : MemoryStore)
    → (key : LocalSigner) × ((signer seed t s).1 ≡ some key)
      × ((signer seed' t (signer seed t s).0).1 ≡ some key)
signer-stable seed seed' t s =
    let (key, first, second) = give_signer_twice seed seed' t (partition t s) in
    let (result, left) = signer-partition seed t s in
    (
      key,
      result ∙ first,
      (signer-partition seed' t (signer seed t s).0).0
          ∙ ap (λ inner. (give_signer seed' t inner).1) left
          ∙ second,
    )

-- The secret that `current_capability_secret` returns with its number is the one that
-- `capability_secret` then gives for this number, and it is returned again later, whatever would be
-- drawn then.
pub current_capability_secret-stable :
    (drawn drawn' : Bytes) (s : MemoryStore)
    → (kid : ℕ) × (secret : Bytes) × ((current_capability_secret drawn s).1 ≡ (kid, secret))
      × (capability_secret kid (current_capability_secret drawn s).0 ≡ some secret)
      × ((current_capability_secret drawn' (current_capability_secret drawn s).0).1 ≡ (kid, secret))
unfolding current_capability_secret capability_secret
current_capability_secret-stable drawn drawn' s = elim (Option-cases s.capability_secret) [
  | inl e ↦ (
    0,
    drawn,
    rw (e, current_capability_secret) refl,
    rw (e, current_capability_secret) refl,
    rw (e, current_capability_secret) refl,
  )
  | inr (secret, e) ↦ (
    0,
    secret,
    rw (e, current_capability_secret) refl,
    rw (e, current_capability_secret) (rw (e, capability_secret) refl),
    rw (e, current_capability_secret) (rw (e, current_capability_secret) refl),
  )
]
