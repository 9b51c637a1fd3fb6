-- ===== src/HttpCache/Routes.antt =====
-- The routes of a tenant's own cache (crates/server/src/http.rs).
use kubernix.Prelude.{
  ℕ, ◌++◌, Option, none, some, Bytes, Bool, false, codes, decimal, contains_text, strip_suffix,
  ◌||◌, if◌then◌else◌,
}
use kubernix.TenantId.{TenantId}
use kubernix.StorePath.{StorePath}
use kubernix.Keys.{ObjectKey, Tier, is_vouchable}
use kubernix.PathInfo.{PathInfo, RemoteObject}
use kubernix.Signing.{Ed25519, public_key_string}
use kubernix.MemoryStore.{LocalSigner, MemoryStore}
use kubernix.MemoryStore.Methods.{query_path_from_hash_part, query_path_info, output_object}
use kubernix.MemoryStore.Sharing
use kubernix.MemoryStore.Sharing.{signer}
use kubernix.HttpCache.{
  Response, okay, not_found, service_unavailable, internal_server_error, temporary, newline,
  render_narinfo, for_tenant, unknown_tenant,
}

-- The configuration of the routes, and the object store, if there is one: `presign_get` and
-- `get_object` are `none` where it fails.
pub record HttpState : Type 0 where
  pub store_dir : Bytes
  pub priority : ℕ
  pub has_uploader : Bool
  pub presign_get : ObjectKey → Option Bytes
  pub get_object : ObjectKey → Option Bytes

abbrev pub not_here : Response
not_here = not_found (codes "not found" ++ newline)

unfoldable pub cache_info : HttpState → Response
cache_info state = okay (
    codes "StoreDir: "
    ++ (state.store_dir
        ++ (newline
            ++ (codes "WantMassQuery: 1"
                ++ (newline ++ (codes "Priority: " ++ (decimal state.priority ++ newline)))))))

unfoldable pub nix_cache_info : HttpState → Bytes → Response
unfolding for_tenant cache_info
nix_cache_info state raw = for_tenant (λ tenant. cache_info state) unknown_tenant raw

unfoldable pub key_answer : Ed25519 → MemoryStore × Option LocalSigner → MemoryStore × Response
unfolding public_key_string
key_answer ed (s, none) = (s, internal_server_error)
key_answer ed (s, some key) = (s, okay (public_key_string ed key ++ newline))

unfoldable pub public_key : Ed25519 → Bytes → Bytes → MemoryStore → MemoryStore × Response
unfolding for_tenant key_answer signer
public_key ed seed raw s =
    for_tenant (λ tenant. key_answer ed (signer seed tenant s)) (s, unknown_tenant) raw

-- The tier has to be there, and vouchable.
unfoldable pub is_served : Option Tier → Bool
unfolding is_vouchable
is_served none = false
is_served (some tier) = is_vouchable tier

unfoldable pub render_object : HttpState → PathInfo → Option RemoteObject → Response
unfolding render_narinfo
render_object state info none = not_here
render_object state info (some remote) = okay (
    render_narinfo info remote.key remote.file_size remote.file_hash remote.compression
      state.store_dir)

unfoldable pub narinfo_of_info :
    HttpState → TenantId → StorePath → Option PathInfo → MemoryStore → Response
unfolding is_served render_object Sharing.tier output_object
narinfo_of_info state tenant path none s = not_here
narinfo_of_info state tenant path (some info) s =
    if is_served (Sharing.tier tenant path s)
    then render_object state info (output_object tenant path s)
    else not_here

unfoldable pub narinfo_of_path : HttpState → TenantId → Option StorePath → MemoryStore → Response
unfolding narinfo_of_info query_path_info
narinfo_of_path state tenant none s = not_here
narinfo_of_path state tenant (some path) s =
    narinfo_of_info state tenant path (query_path_info tenant path s) s

unfoldable pub narinfo_of_hash : HttpState → TenantId → Option Bytes → MemoryStore → Response
unfolding narinfo_of_path query_path_from_hash_part
narinfo_of_hash state tenant none s = not_here
narinfo_of_hash state tenant (some hash) s =
    narinfo_of_path state tenant (query_path_from_hash_part tenant hash s) s

unfoldable pub narinfo : HttpState → Bytes → Bytes → MemoryStore → Response
unfolding for_tenant narinfo_of_hash
narinfo state raw file s =
    for_tenant (λ tenant. narinfo_of_hash state tenant (strip_suffix file (codes ".narinfo")) s)
      unknown_tenant raw

-- `Redirect::temporary` to the URL of the object, if it could be signed.
unfoldable pub redirect : Option Bytes → Response
redirect none = internal_server_error
redirect (some url) = temporary url

-- `file.contains('/') || file.contains("..")`
unfoldable pub leaves_prefix : Bytes → Bool
leaves_prefix file = contains_text file (codes "/") || contains_text file (codes "..")

unfoldable pub nar_object : TenantId → Bytes → ObjectKey
nar_object tenant file = record { as_str = tenant.as_str ++ (codes "/nar/" ++ file) }

unfoldable pub nar_for : HttpState → Bytes → TenantId → Response
unfolding leaves_prefix redirect nar_object
nar_for state file tenant =
    if state.has_uploader
    then (if leaves_prefix file
        then not_here
        else redirect (state.presign_get (nar_object tenant file)))
    else service_unavailable

unfoldable pub nar : HttpState → Bytes → Bytes → Response
unfolding for_tenant nar_for
nar state raw file = for_tenant (nar_for state file) unknown_tenant raw

unfoldable pub log_answer : Option Bytes → Response
log_answer none = not_here
log_answer (some bytes) = okay bytes

unfoldable pub log_object : TenantId → Bytes → ObjectKey
log_object tenant file = record { as_str = tenant.as_str ++ (codes "/log/" ++ file) }

unfoldable pub log_for : HttpState → Bytes → TenantId → Response
unfolding leaves_prefix log_answer log_object
log_for state file tenant =
    if state.has_uploader
    then (if leaves_prefix file
        then not_here
        else log_answer (state.get_object (log_object tenant file)))
    else service_unavailable

unfoldable pub log : HttpState → Bytes → Bytes → Response
unfolding for_tenant log_for
log state raw drv_hash = for_tenant (log_for state drv_hash) unknown_tenant raw
