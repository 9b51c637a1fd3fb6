-- ===== src/HttpCache/Upstreams.antt =====
-- The routes of a tenant's cache for one of its substituters (crates/server/src/http.rs).
use kubernix.Prelude.{
  ◌++◌, ◌∷◌, [], List, Option, none, some, Bytes, Bool, false, codes, strip_suffix, ◌&&◌,
  if◌then◌else◌,
}
use kubernix.Prelude.Eq.{◌==◌, nat_eq, list_eq}
use kubernix.TenantId.{TenantId}
use kubernix.StorePath.{StorePath}
use kubernix.Keys.{ObjectKey}
use kubernix.PathInfo.{PathInfo, RemoteObject}
use kubernix.MemoryStore.{MemoryStore}
use kubernix.MemoryStore.Methods.{query_path_from_hash_part, query_path_info, output_object}
use kubernix.MemoryStore.Sharing.{trusted_substituters, substituted_source}
use kubernix.Substitute.{Upstream, slug_for}
use kubernix.Substitute.Resolve.{Hit, resolve_from_one}
use kubernix.World.{World}
use kubernix.HttpCache.{
  Response, okay, not_found, service_unavailable, newline, render_narinfo, for_tenant,
  unknown_tenant,
}
use kubernix.HttpCache.Routes.{HttpState, not_here, cache_info, leaves_prefix, redirect}

abbrev pub unknown_substituter : Response
unknown_substituter = not_found (codes "unknown substituter" ++ newline)

-- `.find(|(url, _)| slug_for(url) == slug)`
unfoldable pub find_slug : Bytes → List (Bytes × Bytes) → Option (Bytes × Bytes)
unfolding slug_for
find_slug slug [] = none
find_slug slug ((url, key) ∷ rest) =
    let later = find_slug slug rest in if slug_for url == slug then some (url, key) else later

unfoldable pub resolve_substituter : TenantId → Bytes → MemoryStore → Option (Bytes × Bytes)
unfolding find_slug trusted_substituters
resolve_substituter tenant slug s = find_slug slug (trusted_substituters tenant s)

unfoldable pub upstream_nix_cache_info : HttpState → Bytes → Bytes → MemoryStore → Response
unfolding for_tenant resolve_substituter cache_info
upstream_nix_cache_info state raw slug s =
    for_tenant
      (λ tenant. elim (resolve_substituter tenant slug s) [
        | none ↦ unknown_substituter
        | some source ↦ cache_info state
      ])
      unknown_tenant raw

-- `substituted_source(…) == Some((url, public_key))`
unfoldable pub is_source : Bytes → Bytes → Option (Bytes × Bytes) → Bool
is_source url key none = false
is_source url key (some (u, k)) = (u == url) && (k == key)

unfoldable pub both : Option PathInfo → Option RemoteObject → Hit
both (some info) (some remote) = some (info, remote)
both (some info) none = none
both none remote = none

unfoldable pub cached_path : TenantId → Bytes → Bytes → Option StorePath → MemoryStore → Hit
unfolding is_source both substituted_source query_path_info output_object
cached_path tenant url key none s = none
cached_path tenant url key (some path) s =
    if is_source url key (substituted_source tenant path s)
    then both (query_path_info tenant path s) (output_object tenant path s)
    else none

unfoldable pub render_hit : HttpState → PathInfo × RemoteObject → Response
unfolding render_narinfo
render_hit state (info, remote) = okay (
    render_narinfo info remote.key remote.file_size remote.file_hash remote.compression
      state.store_dir)

unfoldable pub resolved_answer : HttpState → World × Hit → World × Response
unfolding render_hit
resolved_answer state (w, none) = (w, not_here)
resolved_answer state (w, some hit) = (w, render_hit state hit)

unfoldable pub cached_or_resolved :
    Upstream → HttpState → TenantId → Bytes → Bytes → Bytes → Hit → World → World × Response
unfolding render_hit resolved_answer resolve_from_one
cached_or_resolved up state tenant hash url key (some hit) w = (w, render_hit state hit)
cached_or_resolved up state tenant hash url key none w =
    if state.has_uploader
    then resolved_answer state (resolve_from_one up tenant hash state.store_dir url key w)
    else (w, service_unavailable)

unfoldable pub upstream_for :
    Upstream
    → HttpState
    → TenantId
    → Option Bytes
    → Option (Bytes × Bytes)
    → World
    → World × Response
unfolding cached_or_resolved cached_path query_path_from_hash_part
upstream_for up state tenant none source w = (w, not_here)
upstream_for up state tenant (some hash) none w = (w, unknown_substituter)
upstream_for up state tenant (some hash) (some (url, key)) w =
    cached_or_resolved up state tenant hash url key
      (cached_path tenant url key (query_path_from_hash_part tenant hash w.store) w.store) w

unfoldable pub upstream_narinfo :
    Upstream → HttpState → Bytes → Bytes → Bytes → World → World × Response
unfolding for_tenant upstream_for resolve_substituter
upstream_narinfo up state raw slug file w =
    for_tenant
      (λ tenant.
        upstream_for up state tenant (strip_suffix file (codes ".narinfo"))
          (resolve_substituter tenant slug w.store) w)
      (w, unknown_tenant) raw

unfoldable pub upstream_object : Bytes → Bytes → ObjectKey
upstream_object slug file = record {
  as_str = codes "substituted/" ++ (slug ++ (codes "/nar/" ++ file));
}

unfoldable pub upstream_nar_of : HttpState → Bytes → Bytes → Option (Bytes × Bytes) → Response
unfolding leaves_prefix redirect upstream_object
upstream_nar_of state slug file none = unknown_substituter
upstream_nar_of state slug file (some source) =
    if state.has_uploader
    then (if leaves_prefix file
        then not_here
        else redirect (state.presign_get (upstream_object slug file)))
    else service_unavailable

unfoldable pub upstream_nar : HttpState → Bytes → Bytes → Bytes → MemoryStore → Response
unfolding for_tenant upstream_nar_of resolve_substituter
upstream_nar state raw slug file s =
    for_tenant (λ tenant. upstream_nar_of state slug file (resolve_substituter tenant slug s))
      unknown_tenant raw
