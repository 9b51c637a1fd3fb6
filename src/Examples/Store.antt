-- ===== src/Examples/Store.antt =====
-- Operations of `MemoryStore` (crates/server/src/store.rs).
use kubernix.Prelude.{[], ◌∷◌, codes, refl, none, some, Bool, List, ◌≡◌, ◌≢◌, ap}
use kubernix.Prelude.Int.{pos}
use kubernix.Prelude.Map
use kubernix.Prelude.Map.{Map}
use kubernix.TenantId.{TenantId, tenant_id_eq}
use kubernix.StorePath.{store_path_eq, hash_part}
use kubernix.Keys.{object_key_eq, verified}
use kubernix.Compression.{Compression}
use kubernix.PathInfo.{PathInfo, RemoteObject, sha256}
use kubernix.MemoryStore.{new, partition, read, write, update}
use kubernix.MemoryStore.Methods.{query_path_info, has_hash_part, put_path, put_object, record_path}
use kubernix.MemoryStore.Sharing.{
  find_entry, has_tier, verified_in, first_of_partitions, find_verified_by_hash_part,
}
use kubernix.MemoryStore.History.{Operation, record_op, step, run, step_isolation}
use kubernix.MemoryStore.Objects.{run-objects}
use kubernix.MemoryStore.Consistent.{IsConsistent, store-IsConsistent}
use kubernix.MemoryStore.Vouched.{IsVerifiedIn, find_verified_sound}
use kubernix.Examples.Data.{acme, beta, hash_text, hello, hello_drv, shared_nar}

abbrev info : PathInfo
info = record {
  path = hello;
  deriver = some hello_drv;
  nar_hash = record { hash_type = sha256; bytes = [] };
  nar_size = 96;
  references = [];
  registration_time = pos 0;
  ultimate = Bool.false;
  sigs = codes "a" ∷ [];
}

abbrev object : RemoteObject
object = record { key = shared_nar; file_size = 80; file_hash = []; compression = Compression.zstd }

abbrev push : Operation
push = record_op acme info object verified

abbrev ops : List Operation
ops = push ∷ []

acme-ne-beta : acme ≢ beta
acme-ne-beta e = cc (ap (λ t. t.as_str) e)

step_isolation_example : partition beta (step push new) ≡ partition beta new
step_isolation_example = step_isolation push beta new acme-ne-beta

store-IsConsistent_example : IsConsistent (partition acme (run ops new))
store-IsConsistent_example = store-IsConsistent ops acme

found : find_verified_by_hash_part hash_text (run ops new) ≡ some (info, object)
unfolding find_verified_by_hash_part first_of_partitions verified_in find_entry has_tier
    has_hash_part hash_part run step record_path put_object put_path update write partition Map.get
    Map.insert Map.or_insert Map.lookups
found = refl

find_verified_sound_example :
    (t : TenantId) × IsVerifiedIn (partition t (run ops new)) hash_text info object
find_verified_sound_example = find_verified_sound hash_text (run ops new) info object found

hello_known : query_path_info acme hello (run ops new) ≡ some info
unfolding query_path_info read run step record_path put_object put_path update write partition
    Map.get Map.insert Map.or_insert
hello_known = refl

hello_unknown : query_path_info beta hello new ≡ none
unfolding query_path_info read partition Map.get
hello_unknown = refl

abbrev later : Operation
later = record_op beta info (record object { file_size = 81 }) verified

object_there : Map.get shared_nar (run ops new).objects ≡ some object
unfolding run step record_path put_object put_path update write Map.get Map.insert Map.or_insert
object_there = refl

run-objects_example : Map.get shared_nar (run (later ∷ []) (run ops new)).objects ≡ some object
run-objects_example = run-objects (later ∷ []) (run ops new) shared_nar object object_there
