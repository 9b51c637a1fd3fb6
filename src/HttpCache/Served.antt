-- ===== src/HttpCache/Served.antt =====
-- What the route for a tenant's own narinfos (`narinfo` of crates/server/src/http.rs) serves.
use kubernix.Prelude.{
  Option, none, some, Bytes, true, codes, ◌≡◌, refl, sym, inl, inr, Bool-cases, Option-cases,
  strip_suffix,
}
use kubernix.TenantId.{TenantId, from_wire}
use kubernix.StorePath.{StorePath}
use kubernix.Keys.{Tier, is_vouchable}
use kubernix.PathInfo.{PathInfo, RemoteObject}
use kubernix.MemoryStore.{MemoryStore}
use kubernix.MemoryStore.Methods.{query_path_from_hash_part, query_path_info, output_object}
use kubernix.MemoryStore.Sharing
use kubernix.HttpCache.{okay, render_narinfo, for_tenant}
use kubernix.HttpCache.Routes.{
  HttpState, is_served, render_object, narinfo_of_info, narinfo_of_path, narinfo_of_hash, narinfo,
}

-- The tenant has the path, vouches for it and has its object, and this is its narinfo.
pub record IsNarinfo (state : HttpState) (s : MemoryStore) (tenant : TenantId) (path : StorePath)
    (body : Bytes) : Type 0 where
  pub info : PathInfo
  pub remote : RemoteObject
  pub tier : Tier
  pub has_info : query_path_info tenant path s ≡ some info
  pub has_tier : Sharing.tier tenant path s ≡ some tier
  pub vouched : is_vouchable tier ≡ true
  pub has_object : output_object tenant path s ≡ some remote
  pub rendered :
      body
      ≡ render_narinfo info remote.key remote.file_size remote.file_hash remote.compression
          state.store_dir

okay-injective : {a b : Bytes} → okay a ≡ okay b → a ≡ b
okay-injective h = cc

is_served-tier :
    (found : Option Tier)
    → is_served found ≡ true
    → (t : Tier) × (found ≡ some t) × (is_vouchable t ≡ true)
unfolding is_served
is_served-tier none h = cc
is_served-tier (some t) h = (t, refl, h)

module _ (state : HttpState) (s : MemoryStore) (body : Bytes) where
  narinfo_of_info_lem :
      (tenant : TenantId) (path : StorePath) (found : Option PathInfo)
      → query_path_info tenant path s ≡ found
      → narinfo_of_info state tenant path found s ≡ okay body
      → IsNarinfo state s tenant path body
  unfolding narinfo_of_info render_object
  narinfo_of_info_lem tenant path none e h = cc
  narinfo_of_info_lem tenant path (some info) e h =
      elim (Bool-cases (is_served (Sharing.tier tenant path s))) [
        | inr f ↦ cc (rw f at h)
        | inl f ↦ elim (Option-cases (output_object tenant path s)) [
          | inl n ↦ cc (rw (n, render_object) at (rw f at h))
          | inr (remote, o) ↦
              let (tier, has, vouched) = is_served-tier (Sharing.tier tenant path s) f in
              record {
                info = info;
                remote = remote;
                tier = tier;
                has_info = e;
                has_tier = has;
                vouched = vouched;
                has_object = o;
                rendered = sym (okay-injective (rw (o, render_object) at (rw f at h)));
              }
        ]
      ]

  narinfo_of_path_lem :
      (tenant : TenantId) (found : Option StorePath)
      → narinfo_of_path state tenant found s ≡ okay body
      → (path : StorePath) × (found ≡ some path) × IsNarinfo state s tenant path body
  unfolding narinfo_of_path
  narinfo_of_path_lem tenant none h = cc
  narinfo_of_path_lem tenant (some path) h =
      (path, refl, narinfo_of_info_lem tenant path (query_path_info tenant path s) refl h)

  narinfo_of_hash_lem :
      (tenant : TenantId) (found : Option Bytes)
      → narinfo_of_hash state tenant found s ≡ okay body
      → (hash : Bytes) × (path : StorePath) × (found ≡ some hash)
        × (query_path_from_hash_part tenant hash s ≡ some path)
        × IsNarinfo state s tenant path body
  unfolding narinfo_of_hash
  narinfo_of_hash_lem tenant none h = cc
  narinfo_of_hash_lem tenant (some hash) h =
      let (path, e, i) = narinfo_of_path_lem tenant (query_path_from_hash_part tenant hash s) h in
      (hash, path, refl, e, i)

  -- A narinfo that the route for a tenant's own paths serves (the one for the paths of a substituter
  -- is another) names a tenant, and a hash part of one of that tenant's own paths, which the tenant
  -- vouches for (it is verified or built) and whose object it has; and it is the rendering of that
  -- path's record and object.
  pub narinfo_sound :
      (raw file : Bytes)
      → narinfo state raw file s ≡ okay body
      → (tenant : TenantId) × (hash : Bytes) × (path : StorePath) × (from_wire raw ≡ some tenant)
        × (strip_suffix file (codes ".narinfo") ≡ some hash)
        × (query_path_from_hash_part tenant hash s ≡ some path)
        × IsNarinfo state s tenant path body
  unfolding narinfo for_tenant
  narinfo_sound raw file h = elim (Option-cases (from_wire raw)) [
    | inl n ↦ cc (rw (n, for_tenant) at h)
    | inr (tenant, e) ↦
        let (hash, path, stripped, found, i) =
          narinfo_of_hash_lem tenant (strip_suffix file (codes ".narinfo"))
            (rw (e, for_tenant) at h) in
        (tenant, hash, path, e, stripped, found, i)
  ]
