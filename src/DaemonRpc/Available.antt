-- ===== src/DaemonRpc/Available.antt =====
-- `all_outputs_available` of crates/server/src/daemon_rpc.rs: whether a build can be left out.
use kubernix.Prelude.{
  ◌∷◌, [], List, Option, none, some, Bytes, Bool, true, false, if◌then◌else◌, if-both,
}
use kubernix.StorePath.{StorePath, hash_part}
use kubernix.MemoryStore.{MemoryStore}
use kubernix.MemoryStore.Methods.{is_valid_path}
use kubernix.MemoryStore.Runs.{Runs, Runs-refl, Runs-trans}
use kubernix.Substitute.Resolve.{exists, Hit}
use kubernix.Substitute.Sources.{exists-Runs, resolve-Runs}
use kubernix.World.{World}
use kubernix.DaemonRpc.{Outside, Connection, hit_path, resolve_substituted}

-- `missing_hash_parts`, or `none` where the source returns `false`.
abbrev pub Missing : Type 0
Missing = MemoryStore × Option (List Bytes)

unfoldable pub and_missing : Bytes → Missing → Missing
and_missing hash (s, none) = (s, none)
and_missing hash (s, some hashes) = (s, some (hash ∷ hashes))

-- An output that some substituter has is missing here, and the loop goes on.
unfoldable pub if_exists : (MemoryStore → Missing) → Bytes → MemoryStore × Bool → Missing
unfolding and_missing
if_exists next hash (s, true) = and_missing hash (next s)
if_exists next hash (s, false) = (s, none)

unfoldable pub missing_by_hash :
    Outside → Connection → (MemoryStore → Missing) → Option Bytes → MemoryStore → Missing
unfolding if_exists exists
missing_by_hash out conn next none s = (s, none)
missing_by_hash out conn next (some hash) s =
    if_exists next hash (exists out.up out.now conn.tenant hash s)

unfoldable pub missing_hash_parts :
    Outside → Connection → List (Bytes × StorePath) → MemoryStore → Missing
unfolding missing_by_hash is_valid_path hash_part
missing_hash_parts out conn [] s = (s, some [])
missing_hash_parts out conn ((name, path) ∷ rest) s =
    let here = missing_hash_parts out conn rest s in
    if is_valid_path conn.tenant path s
    then here
    else missing_by_hash out conn (missing_hash_parts out conn rest) (hash_part path) s

unfoldable pub if_resolved : (World → World × Bool) → World × Option StorePath → World × Bool
if_resolved next (w, some path) = next w
if_resolved next (w, none) = (w, false)

unfoldable pub resolve_all : Outside → Connection → List Bytes → World → World × Bool
unfolding if_resolved resolve_substituted
resolve_all out conn [] w = (w, true)
resolve_all out conn (hash ∷ hashes) w =
    if_resolved (resolve_all out conn hashes) (resolve_substituted out conn hash w)

unfoldable pub resolve_missing : Outside → Connection → World → Missing → World × Bool
unfolding resolve_all
resolve_missing out conn w (s, none) = (record w { store = s }, false)
resolve_missing out conn w (s, some hashes) = resolve_all out conn hashes (record w { store = s })

unfoldable pub all_outputs_available :
    Outside → Connection → List (Bytes × StorePath) → World → World × Bool
unfolding resolve_missing missing_hash_parts
all_outputs_available out conn expected w =
    if conn.use_substitutes
    then resolve_missing out conn w (missing_hash_parts out conn expected w.store)
    else (w, false)

module _ (out : Outside) (conn : Connection) where
  and_missing-Runs :
      (hash : Bytes) (s : MemoryStore) (m : Missing)
      → Runs conn.tenant s m.0
      → Runs conn.tenant s (and_missing hash m).0
  unfolding and_missing
  and_missing-Runs hash s (s', none) r = r
  and_missing-Runs hash s (s', some hashes) r = r

  if_exists-Runs :
      (next : MemoryStore → Missing) (hash : Bytes) (s : MemoryStore) (x : MemoryStore × Bool)
      → ((r : MemoryStore) → Runs conn.tenant r (next r).0)
      → Runs conn.tenant s x.0
      → Runs conn.tenant s (if_exists next hash x).0
  unfolding if_exists
  if_exists-Runs next hash s (s', true) h r =
      and_missing-Runs hash s (next s') (Runs-trans conn.tenant s s' _ r (h s'))
  if_exists-Runs next hash s (s', false) h r = r

  missing_by_hash-Runs :
      (next : MemoryStore → Missing) (hash : Option Bytes) (s : MemoryStore)
      → ((r : MemoryStore) → Runs conn.tenant r (next r).0)
      → Runs conn.tenant s (missing_by_hash out conn next hash s).0
  unfolding missing_by_hash
  missing_by_hash-Runs next none s h = Runs-refl conn.tenant s
  missing_by_hash-Runs next (some hash) s h =
      if_exists-Runs next hash s _ h (exists-Runs out.up out.now conn.tenant hash s)

  missing_hash_parts-Runs :
      (expected : List (Bytes × StorePath)) (s : MemoryStore)
      → Runs conn.tenant s (missing_hash_parts out conn expected s).0
  unfolding missing_hash_parts
  missing_hash_parts-Runs [] s = Runs-refl conn.tenant s
  missing_hash_parts-Runs ((name, path) ∷ rest) s =
      if-both (λ (m : Missing). Runs conn.tenant s m.0) (is_valid_path conn.tenant path s)
        (missing_hash_parts-Runs rest s)
        (missing_by_hash-Runs (missing_hash_parts out conn rest) (hash_part path) s
          (missing_hash_parts-Runs rest))

  hit_path-Runs :
      (s : MemoryStore) (x : World × Hit)
      → Runs conn.tenant s x.0.store
      → Runs conn.tenant s (hit_path x).0.store
  unfolding hit_path
  hit_path-Runs s (w, none) r = r
  hit_path-Runs s (w, some (info, object)) r = r

  pub resolve_substituted-Runs :
      (hash : Bytes) (w : World)
      → Runs conn.tenant w.store (resolve_substituted out conn hash w).0.store
  unfolding resolve_substituted
  resolve_substituted-Runs hash w =
      if-both (λ (x : World × Option StorePath). Runs conn.tenant w.store x.0.store)
        conn.has_uploader
        (hit_path-Runs w.store _ (resolve-Runs out.up out.now conn.tenant hash conn.store_dir w))
        (Runs-refl conn.tenant w.store)

  if_resolved-Runs :
      (next : World → World × Bool) (s : MemoryStore) (x : World × Option StorePath)
      → ((w : World) → Runs conn.tenant w.store (next w).0.store)
      → Runs conn.tenant s x.0.store
      → Runs conn.tenant s (if_resolved next x).0.store
  unfolding if_resolved
  if_resolved-Runs next s (w, some path) h r = Runs-trans conn.tenant s w.store _ r (h w)
  if_resolved-Runs next s (w, none) h r = r

  resolve_all-Runs :
      (hashes : List Bytes) (w : World)
      → Runs conn.tenant w.store (resolve_all out conn hashes w).0.store
  unfolding resolve_all
  resolve_all-Runs [] w = Runs-refl conn.tenant w.store
  resolve_all-Runs (hash ∷ hashes) w =
      if_resolved-Runs (resolve_all out conn hashes) w.store _ (resolve_all-Runs hashes)
        (resolve_substituted-Runs hash w)

  resolve_missing-Runs :
      (w : World) (m : Missing)
      → Runs conn.tenant w.store m.0
      → Runs conn.tenant w.store (resolve_missing out conn w m).0.store
  unfolding resolve_missing
  resolve_missing-Runs w (s, none) r = r
  resolve_missing-Runs w (s, some hashes) r =
      Runs-trans conn.tenant w.store s _ r (resolve_all-Runs hashes (record w { store = s }))

  pub all_outputs_available-Runs :
      (expected : List (Bytes × StorePath)) (w : World)
      → Runs conn.tenant w.store (all_outputs_available out conn expected w).0.store
  unfolding all_outputs_available
  all_outputs_available-Runs expected w =
      if-both (λ (x : World × Bool). Runs conn.tenant w.store x.0.store) conn.use_substitutes
        (resolve_missing-Runs w _ (missing_hash_parts-Runs expected w.store))
        (Runs-refl conn.tenant w.store)
