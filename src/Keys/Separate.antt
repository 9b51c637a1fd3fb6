-- ===== src/Keys/Separate.antt =====
-- Different artifacts have different object keys (crates/server/src/store.rs).
use kubernix.Prelude.{
  ◌≡◌, ◌⊎◌, inl, inr, refl, sym, ◌∙◌, ap, ◌++◌, [], some, Bytes, codes, length, length-append, take,
  take-append, arith, append_assoc, append-cancel, some-injective, Option-cases,
}
use kubernix.TenantId.{TenantId}
use kubernix.TenantId.Safe.{IsWireId, IsKeySafe, all_wire_chars-safe, prefix_unique}
use kubernix.StorePath.{StorePath, hash_part}
use kubernix.Keys.{ObjectKey, Tier, verified, built, quarantined, substituted, tier_key, nar_key}

-- What stands before the first `/` of a key, and between it and the hash part.
abbrev pub front : TenantId → Tier → Bytes
front t verified = codes "nar"
front t built = t.as_str
front t quarantined = t.as_str
front t substituted = t.as_str

abbrev pub middle : Tier → Bytes
middle verified = []
middle built = codes "nar/"
middle quarantined = codes "untrusted/nar/"
middle substituted = codes "untrusted-substituted/nar/"

abbrev pub suffix : Bytes
suffix = codes ".nar.zst"

pub tier_key-split :
    (t : TenantId) (tier : Tier) (h : Bytes)
    → (tier_key t tier h).as_str ≡ front t tier ++ (codes "/" ++ (middle tier ++ (h ++ suffix)))
unfolding tier_key
tier_key-split t verified h = refl
tier_key-split t built h = append_assoc t.as_str (codes "/nar/") (h ++ codes ".nar.zst")
tier_key-split t quarantined h =
    append_assoc t.as_str (codes "/untrusted/nar/") (h ++ codes ".nar.zst")
tier_key-split t substituted h =
    append_assoc t.as_str (codes "/untrusted-substituted/nar/") (h ++ codes ".nar.zst")

pub front-IsKeySafe : (t : TenantId) (tier : Tier) → IsWireId t → IsKeySafe (front t tier)
front-IsKeySafe t verified w = (
  (λ e. omega (arith, e), λ e. omega (arith, e)),
  (
    (λ e. omega (arith, e), λ e. omega (arith, e)),
    ((λ e. omega (arith, e), λ e. omega (arith, e)), tt),
  ),
)
front-IsKeySafe t built w = all_wire_chars-safe t.as_str w.chars
front-IsKeySafe t quarantined w = all_wire_chars-safe t.as_str w.chars
front-IsKeySafe t substituted w = all_wire_chars-safe t.as_str w.chars

pub length-hash_part : (p : StorePath) (h : Bytes) → hash_part p ≡ some h → length h ≡ 32
unfolding hash_part
length-hash_part p h e = ground arith

-- The tiers have middles of different lengths.
length-middle : (t u : Tier) → length (middle t) ≡ length (middle u) → t ≡ u
length-middle verified verified e = refl
length-middle built built e = refl
length-middle quarantined quarantined e = refl
length-middle substituted substituted e = refl
length-middle t u e = absurd (omega (arith, e))

-- What two equal keys have in common.
record IsSame (a b : TenantId) (t u : Tier) (g h : Bytes) : Type 0 where
  tier : t ≡ u
  owner : front a t ≡ front b u
  hash : g ≡ h

tier_key-IsSame :
    (a b : TenantId) (t u : Tier) (g h : Bytes)
    → IsWireId a
    → IsWireId b
    → length g ≡ 32
    → length h ≡ 32
    → tier_key a t g ≡ tier_key b u h
    → IsSame a b t u g h
tier_key-IsSame a b t u g h wa wb lg lh e =
    let rest_t = middle t ++ (g ++ suffix) in
    let rest_u = middle u ++ (h ++ suffix) in
    let whole : front a t ++ (codes "/" ++ rest_t) ≡ front b u ++ (codes "/" ++ rest_u) =
      sym (tier_key-split a t g) ∙ ap (λ k. k.as_str) e ∙ tier_key-split b u h in
    let owner =
      prefix_unique (front a t) (front b u) rest_t rest_u (front-IsKeySafe a t wa)
        (front-IsKeySafe b u wb) whole in
    let rests : rest_t ≡ rest_u =
      append-cancel (codes "/") rest_t rest_u (
        append-cancel (front a t) _ _ (whole ∙ ap (λ f. f ++ (codes "/" ++ rest_u)) (sym owner))) in
    let sizes = ap (λ x. length x) rests in
    let tier = length-middle t u (
      omega (
        arith,
        sizes,
        lg,
        lh,
        length-append (middle t) (g ++ suffix),
        length-append (middle u) (h ++ suffix),
        length-append g suffix,
        length-append h suffix,
      )) in
    let hashes : g ++ suffix ≡ h ++ suffix =
      append-cancel (middle t) _ _ (rests ∙ ap (λ x. middle x ++ (h ++ suffix)) (sym tier)) in
    record {
      tier = tier;
      owner = owner;
      hash =
          sym (take-append g suffix)
          ∙ ap (λ n. take n (g ++ suffix)) (lg ∙ sym lh)
          ∙ ap (take (length h)) hashes
          ∙ take-append h suffix;
    }

pub nar_key-tier_key :
    (t : TenantId) (tier : Tier) (p : StorePath) (key : ObjectKey)
    → nar_key t tier p ≡ some key
    → (h : Bytes) × (hash_part p ≡ some h) × (tier_key t tier h ≡ key)
unfolding nar_key
nar_key-tier_key t tier p key e = elim (Option-cases (hash_part p)) [
  | inl n ↦ cc (rw (n, nar_key) at e)
  | inr (h, s) ↦ (h, s, some-injective (rw (s, nar_key) at e))
]

same_owner : (a b : TenantId) (t : Tier) → front a t ≡ front b t → (t ≡ verified) ⊎ (a ≡ b)
same_owner a b verified e = inl refl
same_owner a b built e = inr (λ i. record { as_str = e i })
same_owner a b quarantined e = inr (λ i. record { as_str = e i })
same_owner a b substituted e = inr (λ i. record { as_str = e i })

-- `nar_key` gives two paths of wire tenants the same object key only in the same tier and with the
-- same hash part, and, but for verified paths, only for the same tenant.
pub nar_key-separate :
    (a b : TenantId) (t u : Tier) (p q : StorePath) (key : ObjectKey)
    → IsWireId a
    → IsWireId b
    → nar_key a t p ≡ some key
    → nar_key b u q ≡ some key
    → (t ≡ u) × (hash_part p ≡ hash_part q) × ((t ≡ verified) ⊎ (a ≡ b))
nar_key-separate a b t u p q key wa wb ea eb =
    let (g, sg, kg) = nar_key-tier_key a t p key ea in
    let (h, sh, kh) = nar_key-tier_key b u q key eb in
    let same =
      tier_key-IsSame a b t u g h wa wb (length-hash_part p g sg) (length-hash_part q h sh)
        (kg ∙ sym kh) in
    (
      same.tier,
      sg ∙ ap some same.hash ∙ sym sh,
      same_owner a b t (same.owner ∙ ap (front b) (sym same.tier)),
    )
