-- ===== src/MemoryStore/Objects.antt =====
-- The shared objects of `MemoryStore` (crates/server/src/store.rs) over time.
use kubernix.Prelude.{some, Bytes, List, [], ◌∷◌, ◌≡◌, refl, arith}
use kubernix.Prelude.Map
use kubernix.Prelude.Map.{Map, get-or_insert}
use kubernix.TenantId.{TenantId, tenant_id_eq}
use kubernix.StorePath.{store_path_eq}
use kubernix.Keys.{ObjectKey, object_key_eq, Tier}
use kubernix.PathInfo.{PathInfo, RemoteObject}
use kubernix.MemoryStore.{Inner, MemoryStore, write, update}
use kubernix.MemoryStore.Methods.{put_object, record_path}
use kubernix.MemoryStore.Sharing.{
  add_signatures, signer, record_substituted_path, mark_substituter_miss, current_capability_secret,
}
use kubernix.MemoryStore.History.{
  Operation, record_op, sign_op, signer_op, substitute_op, miss_op, secret_op, step, run,
}

-- A write to a partition leaves the objects.
objects-write :
    {A : Type 0} (t : TenantId) (f : Inner → Inner × A) (s : MemoryStore)
    → (write t f s).0.objects ≡ s.objects
unfolding write
objects-write t f s = refl

objects-update :
    (t : TenantId) (f : Inner → Inner) (s : MemoryStore) → (update t f s).objects ≡ s.objects
unfolding update write
objects-update t f s = refl

objects-record_path :
    (t : TenantId) (info : PathInfo) (object : RemoteObject) (tier : Tier) (s : MemoryStore)
    → (record_path t info object tier s).objects ≡ Map.or_insert object.key object s.objects
unfolding record_path put_object update write
objects-record_path t info object tier s = refl

objects-secret :
    (drawn : Bytes) (s : MemoryStore) → (current_capability_secret drawn s).0.objects ≡ s.objects
unfolding current_capability_secret
objects-secret drawn s = ground arith

step-objects :
    (op : Operation) (s : MemoryStore) (key : ObjectKey) (object : RemoteObject)
    → Map.get key s.objects ≡ some object
    → Map.get key (step op s).objects ≡ some object
unfolding step
step-objects (record_op t info o tier) s key object h =
    rw (objects-record_path t info o tier s) (get-or_insert o.key key o object s.objects h)
step-objects (sign_op t path sigs) s key object h = unfold add_signatures in rw objects-write h
step-objects (signer_op seed t) s key object h = unfold signer in rw objects-write h
step-objects (substitute_op t info o url k) s key object h =
    unfold record_substituted_path in
    rw objects-update (rw objects-record_path (get-or_insert o.key key o object s.objects h))
step-objects (miss_op now t hash) s key object h =
    unfold mark_substituter_miss in rw objects-update h
step-objects (secret_op drawn) s key object h = rw (objects-secret drawn s) h

-- What is known of an object's key is never changed: whichever tenant pushed it first, the record of
-- the object stays the same through all later operations.
pub run-objects :
    (ops : List Operation) (s : MemoryStore) (key : ObjectKey) (object : RemoteObject)
    → Map.get key s.objects ≡ some object
    → Map.get key (run ops s).objects ≡ some object
unfolding run
run-objects [] s key object h = h
run-objects (op ∷ ops) s key object h =
    run-objects ops (step op s) key object (step-objects op s key object h)
