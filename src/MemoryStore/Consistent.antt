-- ===== src/MemoryStore/Consistent.antt =====
-- What holds in every partition of `MemoryStore` (crates/server/src/store.rs) after any operations.
use kubernix.Prelude.{
  Option, none, some, Bytes, List, [], ◌∷◌, ◌≡◌, refl, sym, ◌∙◌, ap, subst, Bool-cases, inl, inr,
  ◌⊎◌,
}
use kubernix.Prelude.Eq.{◌==◌, ==→eq}
use kubernix.Prelude.Map
use kubernix.Prelude.Map.{Map, get-insert, get-insert_self, get-insert_ne}
use kubernix.TenantId.{TenantId, TenantId-beq_iff, tenant_id_eq}
use kubernix.StorePath.{StorePath, store_path_eq}
use kubernix.Keys.{object_key_eq, Tier, substituted}
use kubernix.PathInfo.{PathInfo, RemoteObject}
use kubernix.MemoryStore.{LocalSigner, Inner, MemoryStore, new, partition}
use kubernix.MemoryStore.Methods.{put_path}
use kubernix.MemoryStore.Sharing.{
  sign_found, sign_path, push_sigs, give_found, give_signer, put_source, put_miss,
}
use kubernix.MemoryStore.History.{
  Operation, record_op, sign_op, signer_op, substitute_op, miss_op, secret_op, IsFor, effect, step,
  run, step_own, step_isolation,
}

-- A valid path is recorded under its own name, and has a tier and an object.
pub record IsRecorded (inner : Inner) (p : StorePath) (info : PathInfo) : Type 0 where
  pub named : info.path ≡ p
  pub tier : Tier
  pub has_tier : Map.get p inner.tiers ≡ some tier
  pub object : RemoteObject
  pub has_object : Map.get p inner.remote ≡ some object

abbrev pub IsConsistent : Inner → Type 0
IsConsistent inner =
    (p : StorePath) (info : PathInfo) → Map.get p inner.paths ≡ some info → IsRecorded inner p info

module _ (info : PathInfo) (object : RemoteObject) (tier : Tier) (inner : Inner) where
  put_path-IsConsistent : IsConsistent inner → IsConsistent (put_path info object tier inner)
  unfolding put_path
  put_path-IsConsistent c p got h = elim (Bool-cases (info.path == p)) [
    | inl e ↦
        let q : info.path ≡ p = ==→eq info.path p e in
        record {
          named = cc (rw (get-insert info.path p info inner.paths, e) at h, q);
          tier = tier;
          has_tier = rw (get-insert info.path p tier inner.tiers) (rw e);
          object = object;
          has_object = rw (get-insert info.path p object inner.remote) (rw e);
        }
    | inr e ↦
        let r = c p got (rw (get-insert info.path p info inner.paths, e) at h) in
        record {
          named = r.named;
          tier = r.tier;
          has_tier = rw (get-insert info.path p tier inner.tiers) (rw e r.has_tier);
          object = r.object;
          has_object = rw (get-insert info.path p object inner.remote) (rw e r.has_object);
        }
  ]

-- The maps that `IsConsistent` reads are the same, but for the record of one path.
same_maps :
    (a b : Inner)
    → a.paths ≡ b.paths
    → a.tiers ≡ b.tiers
    → a.remote ≡ b.remote
    → IsConsistent a
    → IsConsistent b
same_maps a b hp ht hr c p info h =
    let r = c p info (ap (Map.get p) hp ∙ h) in
    record {
      named = r.named;
      tier = r.tier;
      has_tier = sym (ap (Map.get p) ht) ∙ r.has_tier;
      object = r.object;
      has_object = sym (ap (Map.get p) hr) ∙ r.has_object;
    }

-- New signatures leave the path, its tier and its object as they are.
sign_found-IsConsistent :
    (path : StorePath) (sigs : List Bytes) (found : Option PathInfo) (inner : Inner)
    → Map.get path inner.paths ≡ found
    → IsConsistent inner
    → IsConsistent (sign_found path sigs found inner).0
unfolding sign_found
sign_found-IsConsistent path sigs none inner e c p got h = c p got h
sign_found-IsConsistent path sigs (some info) inner e c p got h = elim (Bool-cases (path == p)) [
  | inl same ↦
      let q : path ≡ p = ==→eq path p same in
      let r = c p info (subst (λ x. Map.get x inner.paths ≡ some info) q e) in
      let signed : PathInfo = record info { sigs = push_sigs info.sigs sigs } in
      let g : some signed ≡ some got = rw (get-insert path p signed inner.paths, same) at h in
      record {
        named =
            ap (λ (o : Option PathInfo). elim o [ none ↦ p | some i ↦ i.path ]) (sym g) ∙ r.named;
        tier = r.tier;
        has_tier = r.has_tier;
        object = r.object;
        has_object = r.has_object;
      }
  | inr other ↦
      let signed : PathInfo = record info { sigs = push_sigs info.sigs sigs } in
      let r = c p got (rw (get-insert path p signed inner.paths, other) at h) in
      record {
        named = r.named;
        tier = r.tier;
        has_tier = r.has_tier;
        object = r.object;
        has_object = r.has_object;
      }
]

give_found-IsConsistent :
    (seed : Bytes) (t : TenantId) (found : Option LocalSigner) (inner : Inner)
    → IsConsistent inner
    → IsConsistent (give_found seed t found inner).0
unfolding give_found
give_found-IsConsistent seed t (some key) inner c = c
give_found-IsConsistent seed t none inner c = same_maps inner _ refl refl refl c

effect-IsConsistent :
    (op : Operation) (inner : Inner) → IsConsistent inner → IsConsistent (effect op inner)
unfolding effect
effect-IsConsistent (record_op t info object tier) inner c =
    put_path-IsConsistent info object tier inner c
effect-IsConsistent (sign_op t path sigs) inner c =
    unfold sign_path in sign_found-IsConsistent path sigs (Map.get path inner.paths) inner refl c
effect-IsConsistent (signer_op seed t) inner c =
    unfold give_signer in give_found-IsConsistent seed t inner.signer inner c
effect-IsConsistent (substitute_op t info object url key) inner c =
    unfold put_source in
    same_maps (put_path info object substituted inner) _ refl refl refl
      (put_path-IsConsistent info object substituted inner c)
effect-IsConsistent (miss_op now t hash) inner c =
    unfold put_miss in same_maps inner _ refl refl refl c
effect-IsConsistent (secret_op drawn) inner c = c

decide : (t u : TenantId) → (t ≡ u) ⊎ (t ≡ u → ⊥)
decide t u = elim (Bool-cases (t == u)) [
  | inl e ↦ inl (==→eq t u e)
  | inr e ↦ inr (λ p. cc (e, (TenantId-beq_iff t u).1 p))
]

IsFor-or_not : (op : Operation) (u : TenantId) → IsFor u op ⊎ (IsFor u op → ⊥)
IsFor-or_not (record_op t _ _ _) u = decide t u
IsFor-or_not (sign_op t _ _) u = decide t u
IsFor-or_not (signer_op _ t) u = decide t u
IsFor-or_not (substitute_op t _ _ _ _) u = decide t u
IsFor-or_not (miss_op _ t _) u = decide t u
IsFor-or_not (secret_op _) u = inr (λ h. h)

step-IsConsistent :
    (op : Operation) (u : TenantId) (s : MemoryStore)
    → IsConsistent (partition u s)
    → IsConsistent (partition u (step op s))
step-IsConsistent op u s c = elim (IsFor-or_not op u) [
  | inl own ↦ rw (step_own op u s own) (effect-IsConsistent op (partition u s) c)
  | inr other ↦ rw (step_isolation op u s other) c
]

run-IsConsistent :
    (ops : List Operation) (u : TenantId) (s : MemoryStore)
    → IsConsistent (partition u s)
    → IsConsistent (partition u (run ops s))
unfolding run
run-IsConsistent [] u s c = c
run-IsConsistent (op ∷ ops) u s c = run-IsConsistent ops u (step op s) (step-IsConsistent op u s c)

new-IsConsistent : (u : TenantId) → IsConsistent (partition u new)
unfolding partition Map.get
new-IsConsistent u p info h = cc

-- After any operations on a new store, every path that is valid for a tenant has for that tenant a
-- tier and an object, and the record that is stored for it bears its name.
pub store-IsConsistent :
    (ops : List Operation) (u : TenantId) → IsConsistent (partition u (run ops new))
store-IsConsistent ops u = run-IsConsistent ops u new (new-IsConsistent u)
