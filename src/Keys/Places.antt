-- ===== src/Keys/Places.antt =====
-- Where the NAR of a path is kept (`nar_key` and `substituted_nar_key` of crates/server/src/store.rs).
use kubernix.Prelude.{
  ◌≡◌, ◌≢◌, ◌⊎◌, inl, inr, refl, sym, ◌∙◌, ap, ◌++◌, Option, some, Bytes, codes, length, take,
  take-append, append-cancel, some-injective, Option-cases, Without, split_once, split_once-Without,
}
use kubernix.TenantId.{TenantId, all_wire_chars}
use kubernix.TenantId.Safe.{IsWireId, IsKeySafe, all_wire_chars-safe, prefix_unique}
use kubernix.StorePath.{StorePath, hash_part}
use kubernix.Keys.{
  ObjectKey, Tier, verified, built, quarantined, substituted, nar_key, substituted_nar_key,
}
use kubernix.Keys.Separate.{
  front, middle, suffix, tier_key-split, front-IsKeySafe, length-hash_part, nar_key-tier_key,
  nar_key-separate,
}

-- Stored for a tenant in a tier, or pulled through from the source with a slug.
pub data Place : Type 0 where
  stored : TenantId → Tier → Place
  pulled : Bytes → Place

unfoldable pub key_at : Place → StorePath → Option ObjectKey
unfolding nar_key substituted_nar_key
key_at (stored tenant tier) path = nar_key tenant tier path
key_at (pulled slug) path = substituted_nar_key slug path

-- A wire tenant other than `substituted`, or a slug without a `/`.
abbrev pub IsPlace : Place → Type 0
IsPlace (stored tenant tier) = IsWireId tenant × (tenant.as_str ≢ codes "substituted")
IsPlace (pulled slug) = Without b'/' slug

abbrev pub IsSamePlace : Place → Place → Type 0
IsSamePlace (stored a t) (stored b u) = (t ≡ u) × ((t ≡ verified) ⊎ (a ≡ b))
IsSamePlace (pulled s) (pulled r) = s ≡ r
IsSamePlace (stored a t) (pulled s) = ⊥
IsSamePlace (pulled s) (stored a t) = ⊥

substituted_nar_key-text :
    (slug : Bytes) (p : StorePath) (key : ObjectKey)
    → substituted_nar_key slug p ≡ some key
    → (h : Bytes) × (hash_part p ≡ some h)
      × (codes "substituted/" ++ (slug ++ (codes "/nar/" ++ (h ++ suffix))) ≡ key.as_str)
unfolding substituted_nar_key
substituted_nar_key-text slug p key e = elim (Option-cases (hash_part p)) [
  | inl n ↦ cc (rw (n, substituted_nar_key) at e)
  | inr (h, s) ↦ (h, s, ap (λ k. k.as_str) (some-injective (rw (s, substituted_nar_key) at e)))
]

suffix-cancel : (g h : Bytes) → length g ≡ 32 → length h ≡ 32 → g ++ suffix ≡ h ++ suffix → g ≡ h
suffix-cancel g h lg lh e =
    sym (take-append g suffix)
    ∙ ap (λ n. take n (g ++ suffix)) (lg ∙ sym lh)
    ∙ ap (take (length h)) e
    ∙ take-append h suffix

pulled-pulled :
    (s r : Bytes) (p q : StorePath) (key : ObjectKey)
    → Without b'/' s
    → Without b'/' r
    → substituted_nar_key s p ≡ some key
    → substituted_nar_key r q ≡ some key
    → (s ≡ r) × (hash_part p ≡ hash_part q)
pulled-pulled s r p q key ws wr ep eq =
    let (g, sg, kg) = substituted_nar_key-text s p key ep in
    let (h, sh, kh) = substituted_nar_key-text r q key eq in
    let tails = append-cancel (codes "substituted/") _ _ (kg ∙ sym kh) in
    let same = some-injective (
      sym (split_once-Without b'/' s (codes "nar/" ++ (g ++ suffix)) ws)
      ∙ ap (split_once b'/') tails
      ∙ split_once-Without b'/' r (codes "nar/" ++ (h ++ suffix)) wr) in
    let hashes =
      suffix-cancel g h (length-hash_part p g sg) (length-hash_part q h sh)
        (append-cancel (codes "nar/") _ _ (ap (λ x. x.1) same)) in
    (ap (λ x. x.0) same, sg ∙ ap some hashes ∙ sym sh)

not_front :
    (t : TenantId) (tier : Tier)
    → t.as_str ≢ codes "substituted"
    → front t tier ≢ codes "substituted"
not_front t verified ne e = cc e
not_front t built ne e = ne e
not_front t quarantined ne e = ne e
not_front t substituted ne e = ne e

substituted-IsKeySafe : IsKeySafe (codes "substituted")
unfolding all_wire_chars
substituted-IsKeySafe = all_wire_chars-safe (codes "substituted") refl

stored-pulled :
    (a : TenantId) (t : Tier) (slug : Bytes) (p q : StorePath) (key : ObjectKey)
    → IsWireId a
    → a.as_str ≢ codes "substituted"
    → nar_key a t p ≡ some key
    → substituted_nar_key slug q ≡ some key
    → ⊥
stored-pulled a t slug p q key wa ne ep eq =
    let (g, _, kg) = nar_key-tier_key a t p key ep in
    let (h, _, kh) = substituted_nar_key-text slug q key eq in
    not_front a t ne (
      prefix_unique (front a t) (codes "substituted") (middle t ++ (g ++ suffix))
        (slug ++ (codes "/nar/" ++ (h ++ suffix))) (front-IsKeySafe a t wa) substituted-IsKeySafe
        (sym (tier_key-split a t g) ∙ ap (λ k. k.as_str) kg ∙ sym kh))

-- Two paths are kept under one key only with the same hash part, and only in the same place: both
-- pulled through from sources with the same slug, or both stored in the same tier, and there, but for
-- verified paths, for the same tenant. The tenants are wire tenants that are not called `substituted`,
-- and the slugs have no `/`.
pub key_at-IsSamePlace :
    (x y : Place) (p q : StorePath) (key : ObjectKey)
    → IsPlace x
    → IsPlace y
    → key_at x p ≡ some key
    → key_at y q ≡ some key
    → IsSamePlace x y × (hash_part p ≡ hash_part q)
unfolding key_at
key_at-IsSamePlace (stored a t) (stored b u) p q key (wa, _) (wb, _) ep eq =
    let (tiers, hashes, owners) = nar_key-separate a b t u p q key wa wb ep eq in
    ((tiers, owners), hashes)
key_at-IsSamePlace (pulled s) (pulled r) p q key ws wr ep eq = pulled-pulled s r p q key ws wr ep eq
key_at-IsSamePlace (stored a t) (pulled s) p q key (wa, ne) ws ep eq =
    absurd (stored-pulled a t s p q key wa ne ep eq)
key_at-IsSamePlace (pulled s) (stored a t) p q key ws (wa, ne) ep eq =
    absurd (stored-pulled a t s q p key wa ne eq ep)
