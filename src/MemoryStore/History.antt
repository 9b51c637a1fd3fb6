-- ===== src/MemoryStore/History.antt =====
-- The operations of `MemoryStore` (crates/server/src/store.rs) that change it, and what each does to
-- the partitions.
use kubernix.Prelude.{ℕ, Bytes, List, [], ◌∷◌, ◌≡◌, arith, refl, ◌∙◌, ap}
use kubernix.Prelude.Map.{get-insert_self, get-insert_ne}
use kubernix.TenantId.{TenantId, tenant_id_eq}
use kubernix.StorePath.{StorePath, store_path_eq}
use kubernix.Keys.{object_key_eq, Tier, substituted}
use kubernix.PathInfo.{PathInfo, RemoteObject}
use kubernix.MemoryStore.{Inner, MemoryStore, partition, write, update}
use kubernix.MemoryStore.Methods.{put_path, put_object, record_path}
use kubernix.MemoryStore.Sharing.{
  sign_path, add_signatures, give_signer, signer, put_source, put_miss, record_substituted_path,
  mark_substituter_miss, current_capability_secret,
}

pub data Operation : Type 0 where
  record_op : TenantId → PathInfo → RemoteObject → Tier → Operation
  sign_op : TenantId → StorePath → List Bytes → Operation
  signer_op : Bytes → TenantId → Operation
  substitute_op : TenantId → PathInfo → RemoteObject → Bytes → Bytes → Operation
  miss_op : ℕ → TenantId → Bytes → Operation
  secret_op : Bytes → Operation

unfoldable pub step : Operation → MemoryStore → MemoryStore
step (record_op t info object tier) s = record_path t info object tier s
step (sign_op t path sigs) s = (add_signatures t path sigs s).0
step (signer_op seed t) s = (signer seed t s).0
step (substitute_op t info object url key) s = record_substituted_path t info object url key s
step (miss_op now t hash) s = mark_substituter_miss now t hash s
step (secret_op drawn) s = (current_capability_secret drawn s).0

unfoldable pub run : List Operation → MemoryStore → MemoryStore
run [] s = s
run (op ∷ ops) s = run ops (step op s)

-- The tenant on whose behalf an operation runs.
abbrev pub IsFor : TenantId → Operation → Type 0
IsFor u (record_op t _ _ _) = t ≡ u
IsFor u (sign_op t _ _) = t ≡ u
IsFor u (signer_op _ t) = t ≡ u
IsFor u (substitute_op t _ _ _ _) = t ≡ u
IsFor u (miss_op _ t _) = t ≡ u
IsFor u (secret_op _) = ⊥

-- What an operation does to its own tenant's partition.
unfoldable pub effect : Operation → Inner → Inner
effect (record_op t info object tier) inner = put_path info object tier inner
effect (sign_op t path sigs) inner = (sign_path path sigs inner).0
effect (signer_op seed t) inner = (give_signer seed t inner).0
effect (substitute_op t info object url key) inner =
    put_source info.path url key (put_path info object substituted inner)
effect (miss_op now t hash) inner = put_miss now hash inner
effect (secret_op drawn) inner = inner

module _ {A : Type 0} (t : TenantId) (f : Inner → Inner × A) (s : MemoryStore) where
  pub partition-write_self : partition t (write t f s).0 ≡ (f (partition t s)).0
  unfolding partition write
  partition-write_self = rw (get-insert_self t (f (partition t s)).0 s.inner, partition)

  partition-write_ne : (u : TenantId) → (t ≡ u → ⊥) → partition u (write t f s).0 ≡ partition u s
  unfolding partition write
  partition-write_ne u ne = rw (get-insert_ne t u (f (partition t s)).0 s.inner ne, partition)

module _ (t : TenantId) (f : Inner → Inner) (s : MemoryStore) where
  partition-update_self : partition t (update t f s) ≡ f (partition t s)
  unfolding update
  partition-update_self = partition-write_self t (λ inner. (f inner, tt)) s

  partition-update_ne : (u : TenantId) → (t ≡ u → ⊥) → partition u (update t f s) ≡ partition u s
  unfolding update
  partition-update_ne u ne = partition-write_ne t (λ inner. (f inner, tt)) s u ne

-- The objects are no part of a partition.
partition-put_object :
    (u : TenantId) (object : RemoteObject) (s : MemoryStore)
    → partition u (put_object object s) ≡ partition u s
unfolding partition put_object
partition-put_object u object s = refl

partition-secret :
    (u : TenantId) (drawn : Bytes) (s : MemoryStore)
    → partition u (current_capability_secret drawn s).0 ≡ partition u s
unfolding current_capability_secret partition
partition-secret u drawn s = ground arith

module _ (t : TenantId) (info : PathInfo) (object : RemoteObject) (tier : Tier)
    (s : MemoryStore) where
  pub record_path_self :
      partition t (record_path t info object tier s) ≡ put_path info object tier (partition t s)
  unfolding record_path
  record_path_self =
      partition-update_self t (put_path info object tier) (put_object object s)
      ∙ ap (put_path info object tier) (partition-put_object t object s)

  pub record_path_ne :
      (u : TenantId) → (t ≡ u → ⊥) → partition u (record_path t info object tier s) ≡ partition u s
  unfolding record_path
  record_path_ne u ne =
      partition-update_ne t (put_path info object tier) (put_object object s) u ne
      ∙ partition-put_object u object s

-- An operation changes the partition of the tenant that it is for by its effect.
pub step_own :
    (op : Operation) (u : TenantId) (s : MemoryStore)
    → IsFor u op
    → partition u (step op s) ≡ effect op (partition u s)
unfolding step effect
step_own (record_op t info object tier) u s h = rw (← h) (record_path_self t info object tier s)
step_own (sign_op t path sigs) u s h =
    rw (← h) (unfold add_signatures in partition-write_self t (sign_path path sigs) s)
step_own (signer_op seed t) u s h =
    rw (← h) (unfold signer in partition-write_self t (give_signer seed t) s)
step_own (substitute_op t info object url key) u s h = rw (← h) (
    unfold record_substituted_path in
    partition-update_self t (put_source info.path url key) (record_path t info object substituted s)
    ∙ ap (put_source info.path url key) (record_path_self t info object substituted s))
step_own (miss_op now t hash) u s h =
    rw (← h) (unfold mark_substituter_miss in partition-update_self t (put_miss now hash) s)
step_own (secret_op drawn) u s h = absurd h

-- No operation touches the partition of a tenant other than its own.
pub step_isolation :
    (op : Operation) (u : TenantId) (s : MemoryStore)
    → (IsFor u op → ⊥)
    → partition u (step op s) ≡ partition u s
unfolding step
step_isolation (record_op t info object tier) u s ne = record_path_ne t info object tier s u ne
step_isolation (sign_op t path sigs) u s ne =
    unfold add_signatures in partition-write_ne t (sign_path path sigs) s u ne
step_isolation (signer_op seed t) u s ne =
    unfold signer in partition-write_ne t (give_signer seed t) s u ne
step_isolation (substitute_op t info object url key) u s ne =
    unfold record_substituted_path in
    partition-update_ne t (put_source info.path url key) (record_path t info object substituted s) u
      ne
    ∙ record_path_ne t info object substituted s u ne
step_isolation (miss_op now t hash) u s ne =
    unfold mark_substituter_miss in partition-update_ne t (put_miss now hash) s u ne
step_isolation (secret_op drawn) u s ne = partition-secret u drawn s
