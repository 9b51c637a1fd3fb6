-- ===== src/DaemonRpc/Effects.antt =====
-- What the handlers of crates/server/src/daemon_rpc.rs do to the store: operations for the tenant of
-- their connection, and no others.
use kubernix.Prelude.{
  ◌∷◌, [], List, Option, none, some, Bytes, Bool, true, false, inl, inr, Bool-cases, Option-cases,
  ◌&&◌,
}
use kubernix.Prelude.Eq.{◌==◌}
use kubernix.Prelude.Outcome.{Outcome, ok, err, panic}
use kubernix.StorePath.{StorePath, store_path_eq, hash_part}
use kubernix.Keys.{ObjectKey, Tier, tier_eq, verified, built, is_vouchable, nar_key}
use kubernix.PathInfo.{PathInfo, RemoteObject}
use kubernix.MemoryStore.{LocalSigner, MemoryStore}
use kubernix.MemoryStore.Methods.{is_valid_path, query_path_from_hash_part, object_known}
use kubernix.MemoryStore.Sharing
use kubernix.MemoryStore.Sharing.{signer, find_verified_by_hash_part}
use kubernix.MemoryStore.Runs.{Runs, Runs-refl, Runs-trans, Runs-record_path, Runs-signer}
use kubernix.Substitute.Sources.{exists-Runs}
use kubernix.DaemonRpc.{
  Outside, Connection, RpcError, sign_with, sign_if_vouchable, OutputInfo, output_path_info,
  output_object_of, record_signed, record_each, expected_paths, bogus_paths, record_unless,
  record_outputs, copy_verified, or_copy, resolve_verified, is_found, or_exists, valid_by_hash,
  is_valid_path_anywhere, realised, realise,
}
use kubernix.DaemonRpc.Push.{
  Push, Session, push_tier, keeps_existing, keep_existing, record_push, upload_push, compress_push,
  key_push, accept_push, finalize_as, finalize, stage,
}

module _ (out : Outside) (conn : Connection) where
  sign_with-Runs :
      (info : PathInfo) (s : MemoryStore) (x : MemoryStore × Option LocalSigner)
      → Runs conn.tenant s x.0
      → Runs conn.tenant s (sign_with out conn info x).0
  unfolding sign_with
  sign_with-Runs info s (s', none) r = r
  sign_with-Runs info s (s', some key) r = r

  pub sign_if_vouchable-Runs :
      (info : PathInfo) (tier : Tier) (s : MemoryStore)
      → Runs conn.tenant s (sign_if_vouchable out conn info tier s).0
  unfolding sign_if_vouchable
  sign_if_vouchable-Runs info tier s = elim (Bool-cases (is_vouchable tier)) [
    | inl e ↦
        rw e (
          sign_with-Runs info s (signer out.seed conn.tenant s)
            (Runs-signer conn.tenant out.seed s))
    | inr e ↦ rw e (Runs-refl conn.tenant s)
  ]

  pub record_signed-Runs :
      (info : PathInfo) (object : RemoteObject) (tier : Tier) (s : MemoryStore)
      → Runs conn.tenant s (record_signed out conn info object tier s)
  unfolding record_signed
  record_signed-Runs info object tier s =
      let (s', signed) = sign_if_vouchable out conn info tier s in
      Runs-trans conn.tenant s s' _ (sign_if_vouchable-Runs info tier s)
        (Runs-record_path conn.tenant signed object tier s')

  record_each-Runs :
      (infos : List OutputInfo) (s : MemoryStore)
      → Runs conn.tenant s (record_each out conn infos s)
  unfolding record_each
  record_each-Runs [] s = Runs-refl conn.tenant s
  record_each-Runs (info ∷ infos) s =
      Runs-trans conn.tenant s _ _
        (record_signed-Runs (output_path_info info) (output_object_of info) built s)
        (record_each-Runs infos
          (record_signed out conn (output_path_info info) (output_object_of info) built s))

  record_unless-Runs :
      (infos : List OutputInfo) (bogus : List StorePath) (s : MemoryStore)
      → Runs conn.tenant s (record_unless out conn infos bogus s).0
  unfolding record_unless
  record_unless-Runs infos [] s = record_each-Runs infos s
  record_unless-Runs infos (path ∷ paths) s = Runs-refl conn.tenant s

  pub record_outputs-Runs :
      (infos : List OutputInfo) (expected : List (Bytes × StorePath)) (s : MemoryStore)
      → Runs conn.tenant s (record_outputs out conn infos expected s).0
  unfolding record_outputs
  record_outputs-Runs infos expected s =
      record_unless-Runs infos (bogus_paths (expected_paths expected) infos) s

  copy_verified-Runs :
      (found : Option (PathInfo × RemoteObject)) (s : MemoryStore)
      → Runs conn.tenant s (copy_verified out conn found s).0
  unfolding copy_verified
  copy_verified-Runs none s = Runs-refl conn.tenant s
  copy_verified-Runs (some (info, object)) s =
      record_signed-Runs (record info { sigs = [] }) object verified s

  or_copy-Runs :
      (hash : Bytes) (own : Option StorePath) (s : MemoryStore)
      → Runs conn.tenant s (or_copy out conn hash own s).0
  unfolding or_copy
  or_copy-Runs hash (some path) s = Runs-refl conn.tenant s
  or_copy-Runs hash none s = copy_verified-Runs (find_verified_by_hash_part hash s) s

  pub resolve_verified-Runs :
      (hash : Bytes) (s : MemoryStore) → Runs conn.tenant s (resolve_verified out conn hash s).0
  unfolding resolve_verified
  resolve_verified-Runs hash s = or_copy-Runs hash (query_path_from_hash_part conn.tenant hash s) s

  or_exists-Runs :
      (path : StorePath) (hash : Bytes) (s : MemoryStore) (x : MemoryStore × Option StorePath)
      → Runs conn.tenant s x.0
      → Runs conn.tenant s (or_exists out conn path hash x).0
  unfolding or_exists
  or_exists-Runs path hash s (s', found) r = elim (Bool-cases (is_found path found)) [
    | inl e ↦ rw e r
    | inr e ↦
        rw e (Runs-trans conn.tenant s s' _ r (exists-Runs out.up out.now conn.tenant hash s'))
  ]

  valid_by_hash-Runs :
      (path : StorePath) (hash : Option Bytes) (s : MemoryStore)
      → Runs conn.tenant s (valid_by_hash out conn path hash s).0
  unfolding valid_by_hash
  valid_by_hash-Runs path none s = Runs-refl conn.tenant s
  valid_by_hash-Runs path (some hash) s =
      or_exists-Runs path hash s (resolve_verified out conn hash s) (resolve_verified-Runs hash s)

  pub is_valid_path_anywhere-Runs :
      (path : StorePath) (s : MemoryStore)
      → Runs conn.tenant s (is_valid_path_anywhere out conn path s).0
  unfolding is_valid_path_anywhere
  is_valid_path_anywhere-Runs path s = elim (Bool-cases (is_valid_path conn.tenant path s)) [
    | inl e ↦ rw e (Runs-refl conn.tenant s)
    | inr e ↦ rw e (valid_by_hash-Runs path (hash_part path) s)
  ]

  realised-Runs :
      (path : StorePath) (s : MemoryStore) (x : MemoryStore × Bool)
      → Runs conn.tenant s x.0
      → Runs conn.tenant s (realised path x).0
  unfolding realised
  realised-Runs path s (s', true) r = r
  realised-Runs path s (s', false) r = r

  pub realise-Runs :
      (path : StorePath) (built_ : Bool) (s : MemoryStore)
      → Runs conn.tenant s (realise out conn path built_ s).0
  unfolding realise
  realise-Runs path true s = Runs-refl conn.tenant s
  realise-Runs path false s =
      realised-Runs path s (is_valid_path_anywhere out conn path s)
        (is_valid_path_anywhere-Runs path s)

  upload_push-Runs :
      (push : Push) (tier : Tier) (key : ObjectKey) (compressed : Bytes) (session : Session)
      → Runs conn.tenant session.world.store
          (upload_push out conn push tier key compressed session).0.world.store
  unfolding upload_push record_push stage
  upload_push-Runs push tier key compressed session =
      elim (Bool-cases ((tier == verified) && object_known key session.world.store)) [
        | inl e ↦ rw e (record_signed-Runs push.info _ tier session.world.store)
        | inr e ↦ rw e (elim (Bool-cases (out.put_object key compressed)) [
          | inl f ↦ rw f (record_signed-Runs push.info _ tier session.world.store)
          | inr f ↦ rw f (Runs-refl conn.tenant session.world.store)
        ])
      ]

  key_push-Runs :
      (push : Push) (tier : Tier) (key : Option ObjectKey) (session : Session)
      → Runs conn.tenant session.world.store (key_push out conn push tier key session).0.world.store
  unfolding key_push compress_push
  key_push-Runs push tier none session = Runs-refl conn.tenant session.world.store
  key_push-Runs push tier (some key) session = elim (Option-cases (out.zstd push.nar)) [
    | inl e ↦ rw (e, compress_push) (Runs-refl conn.tenant session.world.store)
    | inr (compressed, e) ↦
        rw (e, compress_push) (upload_push-Runs push tier key compressed session)
  ]

  finalize_as-Runs :
      (push : Push) (tier : Outcome RpcError Tier) (session : Session)
      → Runs conn.tenant session.world.store (finalize_as out conn push tier session).0.world.store
  unfolding finalize_as keep_existing accept_push stage
  finalize_as-Runs push (err e) session = Runs-refl conn.tenant session.world.store
  finalize_as-Runs push panic session = Runs-refl conn.tenant session.world.store
  finalize_as-Runs push (ok tier) session =
      elim (Bool-cases
        (keeps_existing (Sharing.tier conn.tenant push.info.path session.world.store) tier)) [
          | inl e ↦ rw e (Runs-refl conn.tenant session.world.store)
          | inr e ↦ rw e (elim (Bool-cases conn.has_uploader) [
            | inl f ↦
                rw f (key_push-Runs push tier (nar_key conn.tenant tier push.info.path) session)
            | inr f ↦ rw f (Runs-refl conn.tenant session.world.store)
          ])
        ]

  pub finalize-Runs :
      (push : Push) (session : Session)
      → Runs conn.tenant session.world.store (finalize out conn push session).0.world.store
  unfolding finalize
  finalize-Runs push session =
      finalize_as-Runs push (push_tier out conn push session.world.store) session
