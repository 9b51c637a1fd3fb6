-- ===== src/Uploads/Isolation.antt =====
-- Two tenants and one key (crates/server/src/uploads.rs).
use kubernix.Prelude.{◌≡◌, ◌≢◌, Bool, true, false, ◌||◌, inl, inr, sym, ◌∙◌}
use kubernix.TenantId.{TenantId}
use kubernix.TenantId.Safe.{IsWireId, all_wire_chars-safe, prefix_unique}
use kubernix.Keys.{ObjectKey}
use kubernix.Uploads.{is_shared_verified_key, is_shared_substituted_key, key_is_permitted}
use kubernix.Uploads.Permitted.{IsOwn, key_is_permitted_sound}

module _ (key : ObjectKey) (a b : TenantId) (wa : IsWireId a) (wb : IsWireId b) where
  own_unique : (d d' : Bool) → IsOwn key d a → IsOwn key d' b → a ≡ b
  own_unique d d' oa ob =
      let e =
        prefix_unique a.as_str b.as_str oa.rest ob.rest (all_wire_chars-safe a.as_str wa.chars)
          (all_wire_chars-safe b.as_str wb.chars) (sym oa.text ∙ ob.text) in
      λ i. record { as_str = e i }

  -- No key is granted for upload to two tenants whose ids passed `from_wire`.
  pub upload_isolation :
      key_is_permitted key false a ≡ true → key_is_permitted key false b ≡ true → a ≡ b
  upload_isolation ha hb = own_unique false false (own key a ha) (own key b hb)
    where
      own : (k : ObjectKey) (t : TenantId) → key_is_permitted k false t ≡ true → IsOwn k false t
      own k t h = elim (key_is_permitted_sound k false t h).1 [ inl s ↦ cc s.read_only | inr o ↦ o ]

  -- A key that two different tenants may download is one of the two shared kinds.
  pub download_isolation :
      a ≢ b
      → key_is_permitted key true a ≡ true
      → key_is_permitted key true b ≡ true
      → (is_shared_verified_key key || is_shared_substituted_key key) ≡ true
  download_isolation ne ha hb = elim (key_is_permitted_sound key true a ha).1 [
    | inl s ↦ s.shape
    | inr oa ↦ elim (key_is_permitted_sound key true b hb).1 [
      | inl s ↦ s.shape
      | inr ob ↦ absurd (ne (own_unique true true oa ob))
    ]
  ]
