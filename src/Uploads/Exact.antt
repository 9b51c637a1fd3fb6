-- ===== src/Uploads/Exact.antt =====
-- `key_is_permitted` of crates/server/src/uploads.rs, exactly.
use kubernix.Prelude.{
  ◌≡◌, ◌↔◌, ◌++◌, Bytes, Bool, true, false, codes, ◌||◌, ◌⊎◌, inl, inr, refl, sym, ap, subst,
  Bool-cases, starts_with, contains_text, contains_text→Occurs, Occurs→contains_text,
  starts_with→eq, eq→starts_with, if◌then◌else◌,
}
use kubernix.TenantId.{TenantId}
use kubernix.Keys.{ObjectKey}
use kubernix.Uploads.{
  is_shared_verified_key, is_shared_substituted_key, escapes, is_artifact, key_is_permitted,
}
use kubernix.Uploads.Permitted.{IsOwn, key_is_permitted_sound}
use kubernix.Uploads.Minted.{own-granted}
use kubernix.Uploads.Spelled.{
  IsOwnName, Stays, IsGranted, is_nar_name→IsNarName, IsNarName→is_nar_name,
  substituted→IsSubstitutedName, IsSubstitutedName→substituted,
}

or_true : (a b : Bool) → (a || b) ≡ true → (a ≡ true) ⊎ (b ≡ true)
or_true true b h = inl refl
or_true false b h = inr h

or_false : (a b : Bool) → (a || b) ≡ false → (a ≡ false) × (b ≡ false)
or_false true b h = cc h
or_false false b h = (refl, h)

module _ (tenant : TenantId) (rest : Bytes) where
  under : Bytes → Bytes
  under s = tenant.as_str ++ (codes "/" ++ s)

  nar_name :
      (download : Bool)
      → starts_with rest (codes "nar/") ≡ true
      → IsOwnName tenant download (under rest)
  unfolding under
  nar_name download h = let (x, e) = starts_with→eq rest (codes "nar/") h in (x, inl (ap under e))

  log_name :
      (download : Bool)
      → starts_with rest (codes "log/") ≡ true
      → IsOwnName tenant download (under rest)
  unfolding under
  log_name download h =
      let (x, e) = starts_with→eq rest (codes "log/") h in (x, inr (inl (ap under e)))

  untrusted_name :
      starts_with rest (codes "untrusted/nar/") ≡ true → IsOwnName tenant true (under rest)
  unfolding under
  untrusted_name h =
      let (x, e) = starts_with→eq rest (codes "untrusted/nar/") h in
      (x, inr (inr (refl, ap under e)))

  is_artifact→IsOwnName :
      (download : Bool) → is_artifact download rest ≡ true → IsOwnName tenant download (under rest)
  unfolding is_artifact
  is_artifact→IsOwnName true h = elim (or_true _ _ h) [
    | inl n ↦ elim (or_true _ _ n) [ inl m ↦ nar_name true m | inr m ↦ untrusted_name m ]
    | inr n ↦ log_name true n
  ]
  is_artifact→IsOwnName false h = elim (or_true _ _ h) [
    | inl n ↦ nar_name false n
    | inr n ↦ log_name false n
  ]

IsOwnName→IsOwn :
    (key : ObjectKey) (download : Bool) (tenant : TenantId)
    → IsOwnName tenant download key.as_str
    → IsOwn key download tenant
unfolding is_artifact
IsOwnName→IsOwn key true tenant (x, inl e) = record {
  rest = codes "nar/" ++ x;
  text = e;
  artifact = refl;
}
IsOwnName→IsOwn key false tenant (x, inl e) = record {
  rest = codes "nar/" ++ x;
  text = e;
  artifact = refl;
}
IsOwnName→IsOwn key true tenant (x, inr (inl e)) = record {
  rest = codes "log/" ++ x;
  text = e;
  artifact = refl;
}
IsOwnName→IsOwn key false tenant (x, inr (inl e)) = record {
  rest = codes "log/" ++ x;
  text = e;
  artifact = refl;
}
IsOwnName→IsOwn key true tenant (x, inr (inr (_, e))) = record {
  rest = codes "untrusted/nar/" ++ x;
  text = e;
  artifact = refl;
}
IsOwnName→IsOwn key false tenant (x, inr (inr (d, e))) = cc d

escapes→Stays : (s : Bytes) → escapes s ≡ false → Stays s
unfolding escapes
escapes→Stays s h = (
  (λ (front, back, e). cc (rw (Occurs→contains_text s (codes "..") front back e) at h)),
  λ rest e.
      let f = eq→starts_with s (codes "/") rest e in
      let (_, n) = or_false (contains_text s (codes "..")) (starts_with s (codes "/")) h in
      cc (f, n),
)

Stays→escapes : (s : Bytes) → Stays s → escapes s ≡ false
unfolding escapes
Stays→escapes s (dots, front) = elim (Bool-cases (contains_text s (codes ".."))) [
  | inl d ↦ absurd (dots (contains_text→Occurs s (codes "..") d))
  | inr n ↦ rw n (elim (Bool-cases (starts_with s (codes "/"))) [
    | inl f ↦ let (rest, e) = starts_with→eq s (codes "/") f in absurd (front rest e)
    | inr f ↦ f
  ])
]

permitted_sound :
    (key : ObjectKey) (download : Bool) (tenant : TenantId)
    → key_is_permitted key download tenant ≡ true
    → IsGranted key download tenant
permitted_sound key download tenant h =
    let (good, which) = key_is_permitted_sound key download tenant h in
    (
      escapes→Stays key.as_str good,
      elim which [
        | inl shared ↦ inl (
          shared.read_only,
          elim (or_true (is_shared_verified_key key) (is_shared_substituted_key key) shared.shape) [
            | inl v ↦ inl (is_nar_name→IsNarName key.as_str (unfold is_shared_verified_key in v))
            | inr v ↦ inr (substituted→IsSubstitutedName key v)
          ],
        )
        | inr own ↦ inr (
            subst (IsOwnName tenant download) (sym own.text)
              (unfold under in is_artifact→IsOwnName tenant own.rest download own.artifact))
      ],
    )

either : {A : Type 0} (b : Bool) (x y : A) → (if b || true then x else y) ≡ x
either true x y = refl
either false x y = refl

permitted_complete :
    (key : ObjectKey) (download : Bool) (tenant : TenantId)
    → IsGranted key download tenant
    → key_is_permitted key download tenant ≡ true
unfolding key_is_permitted is_shared_verified_key
permitted_complete key download tenant (stays, inl (d, inl v)) =
    rw (Stays→escapes key.as_str stays, d, IsNarName→is_nar_name key.as_str v)
permitted_complete key download tenant (stays, inl (d, inr v)) =
    rw (Stays→escapes key.as_str stays, d, IsSubstitutedName→substituted key v)
      (either (is_shared_verified_key key) true _)
permitted_complete key download tenant (stays, inr own) =
    let o = IsOwnName→IsOwn key download tenant own in
    own-granted key download tenant o.rest (Stays→escapes key.as_str stays) o.text o.artifact

-- `key_is_permitted` grants exactly the keys without `..` and without a leading `/` that are, for a
-- download, `nar/<hash>.nar.zst` or `substituted/<slug>/nar/<hash>.nar.zst` with 32 characters of
-- base32 as the hash and a slug that is not empty and has no `/`; or that stand under the tenant's id
-- in `nar/` or `log/`, or, for a download, in `untrusted/nar/`.
pub key_is_permitted_iff :
    (key : ObjectKey) (download : Bool) (tenant : TenantId)
    → (key_is_permitted key download tenant ≡ true) ↔ IsGranted key download tenant
key_is_permitted_iff key download tenant =
    (permitted_sound key download tenant, permitted_complete key download tenant)
