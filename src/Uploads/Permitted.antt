-- ===== src/Uploads/Permitted.antt =====
-- What `key_is_permitted` of crates/server/src/uploads.rs grants.
use kubernix.Prelude.{
  ◌≡◌, ◌++◌, Option, none, some, Bytes, Bool, true, false, codes, ◌&&◌, ◌||◌, ◌⊎◌, inl, inr,
  strip_prefix, strip_prefix→eq, refl, Bool-cases, &&-eq-true, ◌∙◌, append_assoc,
}
use mathlib.Core.Bool.{false≢true}
use kubernix.TenantId.{TenantId}
use kubernix.Keys.{ObjectKey}
use kubernix.Uploads.{
  is_shared_verified_key, is_shared_substituted_key, escapes, is_artifact, key_is_permitted,
}

-- A key of the tenant: its id, a `/` and an artifact name.
pub record IsOwn (key : ObjectKey) (download : Bool) (tenant : TenantId) : Type 0 where
  pub rest : Bytes
  pub text : key.as_str ≡ tenant.as_str ++ (codes "/" ++ rest)
  pub artifact : is_artifact download rest ≡ true

-- A key that is shared by every tenant, and is only ever read.
pub record IsShared (key : ObjectKey) (download : Bool) : Type 0 where
  pub read_only : download ≡ true
  pub shape : (is_shared_verified_key key || is_shared_substituted_key key) ≡ true

granted-IsOwn :
    (key : ObjectKey) (download : Bool) (tenant : TenantId) (o : Option Bytes)
    → strip_prefix key.as_str (tenant.as_str ++ codes "/") ≡ o
    → (elim o as (λ _. Bool) [ none ↦ false | some rest ↦ is_artifact download rest ]) ≡ true
    → IsOwn key download tenant
granted-IsOwn key download tenant none e h = cc
granted-IsOwn key download tenant (some rest) e h = record {
  rest = rest;
  text =
      strip_prefix→eq key.as_str (tenant.as_str ++ codes "/") rest e
      ∙ append_assoc tenant.as_str (codes "/") rest;
  artifact = h;
}

-- Every key that is granted has no `..` and no leading `/`, and is a shared object that is read, or
-- an artifact under the tenant's own prefix.
pub key_is_permitted_sound :
    (key : ObjectKey) (download : Bool) (tenant : TenantId)
    → key_is_permitted key download tenant ≡ true
    → (escapes key.as_str ≡ false) × (IsShared key download ⊎ IsOwn key download tenant)
unfolding key_is_permitted
key_is_permitted_sound key download tenant h = elim (Bool-cases (escapes key.as_str)) [
  | inl bad ↦ absurd (false≢true (rw bad at h))
  | inr good ↦ (good, own_or_shared good)
]
  where
    shared : Bool
    shared = is_shared_verified_key key || is_shared_substituted_key key

    own_or_shared : escapes key.as_str ≡ false → IsShared key download ⊎ IsOwn key download tenant
    own_or_shared good = elim (Bool-cases (download && shared)) [
      | inl s ↦
          let (d, sh) = &&-eq-true download shared s in inl (record { read_only = d; shape = sh })
      | inr s ↦ inr (
          granted-IsOwn key download tenant (strip_prefix key.as_str (tenant.as_str ++ codes "/"))
            refl (rw (good, s) at h))
    ]
