-- ===== src/HttpCache/Keyed.antt =====
-- The object keys that the routes of crates/server/src/http.rs make, against those of
-- crates/server/src/store.rs.
use kubernix.Prelude.{
  ◌+◌, ◌++◌, Option, none, some, Bytes, false, codes, ◌≡◌, ◌↔◌, refl, sym, ap, ◌∙◌, arith, inl, inr,
  Bool-cases, Option-cases, length, length-append, Without, rsplit_first, append_assoc,
  rsplit_first-append, lacks→Without, All-append,
}
use kubernix.TenantId.{TenantId, from_wire}
use kubernix.TenantId.Safe.{all_wire_chars-safe, prefix_unique, from_wire-IsWireId}
use kubernix.Keys.{ObjectKey, Tier, verified, built, quarantined, substituted, tier_key}
use kubernix.HttpCache.{temporary, object_key_basename, for_tenant}
use kubernix.HttpCache.Routes.{HttpState, leaves_prefix, redirect, nar_object, nar_for, nar}

suffix-Without : (hash : Bytes) → Without b'/' hash → Without b'/' (hash ++ codes ".nar.zst")
suffix-Without hash h =
    All-append (λ x. x ≡ b'/' → ⊥) hash (codes ".nar.zst") h
      (lacks→Without b'/' (codes ".nar.zst") refl)

-- The file behind the folder of a tenant.
basename-tenant :
    (tenant folder file : Bytes)
    → Without b'/' file
    → object_key_basename ((tenant ++ (folder ++ codes "/")) ++ file) ≡ file
unfolding object_key_basename
basename-tenant tenant folder file h =
    ap (rsplit_first b'/') (
      ap (λ x. x ++ file) (sym (append_assoc tenant folder (codes "/")))
      ∙ append_assoc (tenant ++ folder) (codes "/") file)
    ∙ rsplit_first-append b'/' (tenant ++ folder) file h

basename-tier_key :
    (tenant : TenantId) (tier : Tier) (hash : Bytes)
    → Without b'/' hash
    → object_key_basename (tier_key tenant tier hash).as_str ≡ hash ++ codes ".nar.zst"
unfolding object_key_basename tier_key
basename-tier_key tenant verified hash h =
    rsplit_first-append b'/' (codes "nar") (hash ++ codes ".nar.zst") (suffix-Without hash h)
basename-tier_key tenant built hash h =
    basename-tenant tenant.as_str (codes "/nar") _ (suffix-Without hash h)
basename-tier_key tenant quarantined hash h =
    basename-tenant tenant.as_str (codes "/untrusted/nar") _ (suffix-Without hash h)
basename-tier_key tenant substituted hash h =
    basename-tenant tenant.as_str (codes "/untrusted-substituted/nar") _ (suffix-Without hash h)

-- The key that a client's request for the URL of a narinfo reaches.
abbrev pub requested : TenantId → ObjectKey → ObjectKey
requested tenant key = nar_object tenant (object_key_basename key.as_str)

requested-file :
    (tenant : TenantId) (tier : Tier) (hash : Bytes)
    → Without b'/' hash
    → (requested tenant (tier_key tenant tier hash)).as_str
      ≡ tenant.as_str ++ (codes "/nar/" ++ (hash ++ codes ".nar.zst"))
unfolding nar_object
requested-file tenant tier hash h =
    ap (λ f. tenant.as_str ++ (codes "/nar/" ++ f)) (basename-tier_key tenant tier hash h)

length-requested :
    (tenant : TenantId) (tier : Tier) (hash : Bytes)
    → Without b'/' hash
    → length (requested tenant (tier_key tenant tier hash)).as_str
      ≡ length tenant.as_str + 5 + length (hash ++ codes ".nar.zst")
length-requested tenant tier hash h =
    ap length (requested-file tenant tier hash h)
    ∙ omega (arith, length-append tenant.as_str (codes "/nar/" ++ (hash ++ codes ".nar.zst")))

built-served :
    (tenant : TenantId) (hash : Bytes)
    → Without b'/' hash
    → requested tenant (tier_key tenant built hash) ≡ tier_key tenant built hash
unfolding tier_key
built-served tenant hash h =
    let same =
      requested-file tenant built hash h
      ∙ sym (append_assoc tenant.as_str (codes "/nar/") (hash ++ codes ".nar.zst")) in
    λ i. record { as_str = same i }

length-tenant_key :
    (tenant folder file : Bytes)
    → length ((tenant ++ folder) ++ file) ≡ length tenant + length folder + length file
length-tenant_key tenant folder file =
    omega (arith, length-append (tenant ++ folder) file, length-append tenant folder)

only_built :
    (tenant : TenantId) (tier : Tier) (hash : Bytes)
    → Without b'/' hash
    → requested tenant (tier_key tenant tier hash) ≡ tier_key tenant tier hash
    → tier ≡ built
unfolding tier_key
only_built tenant verified hash h e =
    absurd (omega (arith, length-requested tenant verified hash h, ap (λ k. length k.as_str) e))
only_built tenant built hash h e = refl
only_built tenant quarantined hash h e = absurd (
    omega (
      arith,
      length-requested tenant quarantined hash h,
      ap (λ k. length k.as_str) e,
      length-tenant_key tenant.as_str (codes "/untrusted/nar/") (hash ++ codes ".nar.zst"),
    ))
only_built tenant substituted hash h e = absurd (
    omega (
      arith,
      length-requested tenant substituted hash h,
      ap (λ k. length k.as_str) e,
      length-tenant_key tenant.as_str (codes "/untrusted-substituted/nar/")
          (hash ++ codes ".nar.zst"),
    ))

redirect-temporary :
    (signed : Option Bytes) (url : Bytes) → redirect signed ≡ temporary url → signed ≡ some url
unfolding redirect
redirect-temporary none url h = cc
redirect-temporary (some u) url h = cc

nar_for_lem :
    (state : HttpState) (file : Bytes) (tenant : TenantId) (url : Bytes)
    → nar_for state file tenant ≡ temporary url
    → (state.presign_get (nar_object tenant file) ≡ some url) × (leaves_prefix file ≡ false)
unfolding nar_for
nar_for_lem state file tenant url h = elim (Bool-cases state.has_uploader) [
  | inr n ↦ cc (rw n at h)
  | inl u ↦ elim (Bool-cases (leaves_prefix file)) [
    | inl l ↦ cc (rw l at (rw u at h))
    | inr l ↦ (redirect-temporary _ url (rw l at (rw u at h)), l)
  ]
]

-- Two tenants of the wire have no object of the `nar` route in common.
nar_object-tenant :
    (raw raw' : Bytes) (t u : TenantId) (file file' : Bytes)
    → from_wire raw ≡ some t
    → from_wire raw' ≡ some u
    → nar_object t file ≡ nar_object u file'
    → t ≡ u
unfolding nar_object
nar_object-tenant raw raw' t u file file' ht hu e =
    let safe = λ (v : TenantId) (id : Bytes) (h : from_wire id ≡ some v).
      all_wire_chars-safe v.as_str (from_wire-IsWireId id v h).1.chars in
    let same =
      prefix_unique t.as_str u.as_str (codes "nar/" ++ file) (codes "nar/" ++ file') (safe t raw ht)
        (safe u raw' hu) (ap (λ k. k.as_str) e) in
    λ i. record { as_str = same i }

-- The `nar` route that the URL of a path's narinfo leads to reaches the object of the path, under the
-- key of its tier, if and only if the tier is `built`; so not for a verified path.
pub nar_reaches_built :
    (tenant : TenantId) (tier : Tier) (hash : Bytes)
    → Without b'/' hash
    → (nar_object tenant (object_key_basename (tier_key tenant tier hash).as_str)
        ≡ tier_key tenant tier hash)
      ↔ (tier ≡ built)
nar_reaches_built tenant tier hash h =
    (only_built tenant tier hash h, λ e. rw e (built-served tenant hash h))

-- A redirect of the `nar` route is to an object in the folder of the tenant that the request names: the
-- file has no way out of it, and no other tenant's `nar` route reaches the object.
pub nar_stays_with_tenant :
    (state : HttpState) (raw file url : Bytes)
    → nar state raw file ≡ temporary url
    → (tenant : TenantId) × (from_wire raw ≡ some tenant)
      × (state.presign_get (nar_object tenant file) ≡ some url)
      × (leaves_prefix file ≡ false)
      × ((other : TenantId) (raw' file' : Bytes)
          → from_wire raw' ≡ some other
          → nar_object other file' ≡ nar_object tenant file
          → other ≡ tenant)
unfolding nar for_tenant
nar_stays_with_tenant state raw file url h = elim (Option-cases (from_wire raw)) [
  | inl n ↦ cc (rw (n, for_tenant) at h)
  | inr (tenant, e) ↦
      let (signed, stays) = nar_for_lem state file tenant url (rw (e, for_tenant) at h) in
      (
        tenant,
        e,
        signed,
        stays,
        λ other raw' file' f. nar_object-tenant raw' raw other tenant file' file f e,
      )
]
