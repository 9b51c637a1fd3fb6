-- ===== src/DaemonRpc/Copied.antt =====
-- `resolve_verified` of crates/server/src/daemon_rpc.rs: a verified path of another tenant becomes the
-- tenant's own, with the tenant's own signature and no other.
use kubernix.Prelude.{◌∷◌, [], Option, none, some, Bytes, ◌≡◌, refl, sym, ap, ◌∙◌}
use kubernix.Prelude.Map
use kubernix.Prelude.Map.{get-insert_self}
use kubernix.Prelude.Outcome.{Outcome, ok, err, panic}
use kubernix.TenantId.{TenantId}
use kubernix.StorePath.{StorePath, store_path_eq}
use kubernix.Keys.{verified, is_vouchable}
use kubernix.PathInfo.{PathInfo, RemoteObject}
use kubernix.Signing.{SignError, sign_path}
use kubernix.MemoryStore.{LocalSigner, MemoryStore, partition}
use kubernix.MemoryStore.Methods.{query_path_from_hash_part, put_path}
use kubernix.MemoryStore.Sharing.{signer, contains_sig, find_verified_by_hash_part}
use kubernix.MemoryStore.History.{record_path_self}
use kubernix.MemoryStore.Vouched.{IsVerifiedIn, find_verified_sound}
use kubernix.DaemonRpc.{
  Outside, Connection, fingerprint_of, with_signature, sign_with, sign_if_vouchable, record_signed,
  copy_verified, or_copy, resolve_verified,
}

-- `signed` is `info` without its signatures, or with one by the key of the tenant.
pub data SignedAlone (out : Outside) (conn : Connection) (info : PathInfo) (s : MemoryStore)
    : PathInfo → Type 0 where
  unsigned : SignedAlone out conn info s (record info { sigs = [] })
  signed_by :
      (key : LocalSigner) (signature : Bytes)
      → (signer out.seed conn.tenant s).1 ≡ some key
      → sign_path out.ed key (fingerprint_of conn (record info { sigs = [] })) ≡ ok signature
      → SignedAlone out conn info s (record info { sigs = signature ∷ [] })

-- The record in the tenant's partition.
pub record IsCopied (out : Outside) (conn : Connection) (info : PathInfo) (object : RemoteObject)
    (s s' : MemoryStore) : Type 0 where
  pub signed : PathInfo
  pub alone : SignedAlone out conn info s signed
  pub info_of : Map.get info.path (partition conn.tenant s').paths ≡ some signed
  pub tier_of : Map.get info.path (partition conn.tenant s').tiers ≡ some verified
  pub object_of : Map.get info.path (partition conn.tenant s').remote ≡ some object

module _ (out : Outside) (conn : Connection) where
  with_signature_lem :
      (info : PathInfo) (s : MemoryStore) (key : LocalSigner) (r : Outcome SignError Bytes)
      → (signer out.seed conn.tenant s).1 ≡ some key
      → sign_path out.ed key (fingerprint_of conn (record info { sigs = [] })) ≡ r
      → SignedAlone out conn info s (with_signature (record info { sigs = [] }) r)
  unfolding with_signature contains_sig
  with_signature_lem info s key (ok signature) k e = signed_by key signature k e
  with_signature_lem info s key (err x) k e = unsigned
  with_signature_lem info s key panic k e = unsigned

  sign_with_lem :
      (info : PathInfo) (s : MemoryStore) (x : MemoryStore × Option LocalSigner)
      → (signer out.seed conn.tenant s).1 ≡ x.1
      → SignedAlone out conn info s (sign_with out conn (record info { sigs = [] }) x).1
  unfolding sign_with
  sign_with_lem info s (s', none) e = unsigned
  sign_with_lem info s (s', some key) e = with_signature_lem info s key _ e refl

  SignedAlone-path :
      (info signed : PathInfo) (s : MemoryStore)
      → SignedAlone out conn info s signed
      → signed.path ≡ info.path
  SignedAlone-path info _ s unsigned = refl
  SignedAlone-path info _ s (signed_by key signature k e) = refl

  record_signed-IsCopied :
      (info : PathInfo) (object : RemoteObject) (s : MemoryStore)
      → IsCopied out conn info object s
          (record_signed out conn (record info { sigs = [] }) object verified s)
  unfolding record_signed sign_if_vouchable is_vouchable put_path
  record_signed-IsCopied info object s =
      let (s', signed) =
        sign_with out conn (record info { sigs = [] }) (signer out.seed conn.tenant s) in
      let alone : SignedAlone out conn info s signed = sign_with_lem info s _ refl in
      let same = sym (SignedAlone-path info signed s alone) in
      let recorded = record_path_self conn.tenant signed object verified s' in
      record {
        signed = signed;
        alone = alone;
        info_of =
            ap (λ inner. Map.get info.path inner.paths) recorded
            ∙ ap (λ p. Map.get p (Map.insert signed.path signed (partition conn.tenant s').paths))
                same
            ∙ get-insert_self signed.path signed (partition conn.tenant s').paths;
        tier_of =
            ap (λ inner. Map.get info.path inner.tiers) recorded
            ∙ ap (λ p. Map.get p (Map.insert signed.path verified (partition conn.tenant s').tiers))
                same
            ∙ get-insert_self signed.path verified (partition conn.tenant s').tiers;
        object_of =
            ap (λ inner. Map.get info.path inner.remote) recorded
            ∙ ap (λ p. Map.get p (Map.insert signed.path object (partition conn.tenant s').remote))
                same
            ∙ get-insert_self signed.path object (partition conn.tenant s').remote;
      }

  -- The path is the tenant's own already, or it is copied from a tenant that holds it as verified.
  pub data Resolved (hash : Bytes) (s s' : MemoryStore) (path : StorePath) : Type 0 where
    own :
        query_path_from_hash_part conn.tenant hash s ≡ some path → s' ≡ s → Resolved hash s s' path
    copied :
        (t : TenantId) (info : PathInfo) (object : RemoteObject)
        → IsVerifiedIn (partition t s) hash info object
        → info.path ≡ path
        → IsCopied out conn info object s s'
        → Resolved hash s s' path

  abbrev pub ResolvedPost : Bytes → MemoryStore → MemoryStore × Option StorePath → Type 0
  ResolvedPost hash s (s', none) = s' ≡ s
  ResolvedPost hash s (s', some path) = Resolved hash s s' path

  copy_verified_lem :
      (hash : Bytes) (found : Option (PathInfo × RemoteObject)) (s : MemoryStore)
      → find_verified_by_hash_part hash s ≡ found
      → ResolvedPost hash s (copy_verified out conn found s)
  unfolding copy_verified
  copy_verified_lem hash none s e = refl
  copy_verified_lem hash (some (info, object)) s e =
      let (t, held) = find_verified_sound hash s info object e in
      copied t info object held refl (record_signed-IsCopied info object s)

  or_copy_lem :
      (hash : Bytes) (mine : Option StorePath) (s : MemoryStore)
      → query_path_from_hash_part conn.tenant hash s ≡ mine
      → ResolvedPost hash s (or_copy out conn hash mine s)
  unfolding or_copy
  or_copy_lem hash (some path) s e = own e refl
  or_copy_lem hash none s e = copy_verified_lem hash _ s refl

  -- A hash part that is resolved is that of a path of the tenant's own, and nothing changes; or of one
  -- that some tenant holds as verified, which is then recorded for this tenant, as verified and with
  -- the same object, and with no signature but one by this tenant's key. Otherwise nothing changes.
  pub resolve_verified-ResolvedPost :
      (hash : Bytes) (s : MemoryStore) → ResolvedPost hash s (resolve_verified out conn hash s)
  unfolding resolve_verified
  resolve_verified-ResolvedPost hash s = or_copy_lem hash _ s refl
