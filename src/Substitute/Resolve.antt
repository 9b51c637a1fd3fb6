-- ===== src/Substitute/Resolve.antt =====
-- `exists`, `resolve_from_one` and `resolve` of crates/server/src/substitute.rs.
use kubernix.Prelude.{
  ℕ, ◌++◌, ◌∷◌, [], List, Option, none, some, Bytes, Bool, true, false, codes, ◌&&◌, if◌then◌else◌,
  trim_end_matches,
}
use kubernix.Prelude.Eq.{◌==◌, nat_eq, list_eq}
use kubernix.Prelude.Outcome.{ok, err, panic}
use kubernix.TenantId.{TenantId}
use kubernix.PathInfo.{PathInfo, RemoteObject}
use kubernix.MemoryStore.{MemoryStore}
use kubernix.MemoryStore.Sharing.{
  trusted_substituters, record_substituted_path, find_substituted_by_hash_part,
  substituter_negative_cache_hit, mark_substituter_miss,
}
use kubernix.World.{World, with_object}
use kubernix.Substitute.{Upstream}
use kubernix.Substitute.Fetch.{Fetched, fetch_one}

-- `.contains(&(url, key))`
unfoldable pub trusts : List (Bytes × Bytes) → Bytes → Bytes → Bool
trusts [] url key = false
trusts ((u, k) ∷ rest) url key = if (u == url) && (k == key) then true else trusts rest url key

-- Whether some tenant has the path from a source that this tenant trusts.
unfoldable pub shared_from :
    List (Bytes × Bytes) → Option (PathInfo × RemoteObject × Bytes × Bytes) → Bool
unfolding trusts
shared_from substituters none = false
shared_from substituters (some (info, object, url, key)) = trusts substituters url key

-- The loop of `HEAD` requests.
unfoldable pub any_has : Upstream → Bytes → List (Bytes × Bytes) → Bool
any_has up hash_part [] = false
any_has up hash_part ((url, key) ∷ rest) =
    if up.head (trim_end_matches b'/' url ++ (codes "/" ++ (hash_part ++ codes ".narinfo")))
    then true
    else any_has up hash_part rest

unfoldable pub exists_upstream :
    Upstream → ℕ → TenantId → Bytes → List (Bytes × Bytes) → MemoryStore → MemoryStore × Bool
unfolding any_has mark_substituter_miss
exists_upstream up now tenant hash_part [] s = (s, false)
exists_upstream up now tenant hash_part (source ∷ sources) s =
    if any_has up hash_part (source ∷ sources)
    then (s, true)
    else (mark_substituter_miss now tenant hash_part s, false)

unfoldable pub exists : Upstream → ℕ → TenantId → Bytes → MemoryStore → MemoryStore × Bool
unfolding shared_from exists_upstream trusted_substituters substituter_negative_cache_hit
    find_substituted_by_hash_part
exists up now tenant hash_part s =
    if substituter_negative_cache_hit now tenant hash_part s
    then (s, false)
    else if shared_from (trusted_substituters tenant s) (find_substituted_by_hash_part hash_part s)
    then (s, true)
    else exists_upstream up now tenant hash_part (trusted_substituters tenant s) s

-- `Some((info, object))`
abbrev pub Hit : Type 0
Hit = Option (PathInfo × RemoteObject)

unfoldable pub record_hit : TenantId → Bytes → Bytes → PathInfo × RemoteObject → World → World × Hit
unfolding record_substituted_path
record_hit tenant url key (info, object) w = (
  record w { store = record_substituted_path tenant info object url key w.store },
  some (info, object),
)

-- What is made of the result of `fetch_one`.
unfoldable pub after_fetch : TenantId → Bytes → Bytes → Fetched → World → World × Hit
unfolding record_hit with_object
after_fetch tenant url key (stored, ok (some hit)) w =
    record_hit tenant url key hit (with_object stored w)
after_fetch tenant url key (stored, ok none) w = (with_object stored w, none)
after_fetch tenant url key (stored, err e) w = (with_object stored w, none)
after_fetch tenant url key (stored, panic) w = (with_object stored w, none)

unfoldable pub resolve_found :
    Upstream
    → TenantId
    → Bytes
    → Bytes
    → Bytes
    → Bytes
    → Option (PathInfo × RemoteObject × Bytes × Bytes)
    → World
    → World × Hit
unfolding record_hit after_fetch fetch_one
resolve_found up tenant hash_part store_dir url key none w =
    after_fetch tenant url key (fetch_one up url hash_part store_dir) w
resolve_found up tenant hash_part store_dir url key (some (info, object, found_url, found_key)) w =
    if (found_url == url) && (found_key == key)
    then record_hit tenant url key (info, object) w
    else after_fetch tenant url key (fetch_one up url hash_part store_dir) w

unfoldable pub resolve_from_one :
    Upstream → TenantId → Bytes → Bytes → Bytes → Bytes → World → World × Hit
unfolding resolve_found find_substituted_by_hash_part
resolve_from_one up tenant hash_part store_dir url key w =
    resolve_found up tenant hash_part store_dir url key
      (find_substituted_by_hash_part hash_part w.store) w

-- A hit ends the loop, and a miss goes on with the next substituter.
unfoldable pub or_next : (World → World × Hit) → World × Hit → World × Hit
or_next next (w, some hit) = (w, some hit)
or_next next (w, none) = next w

-- The loop over the substituters: the first hit ends it, and at its end the miss is remembered.
unfoldable pub resolve_loop :
    Upstream → ℕ → TenantId → Bytes → Bytes → List (Bytes × Bytes) → World → World × Hit
unfolding or_next resolve_from_one mark_substituter_miss
resolve_loop up now tenant hash_part store_dir [] w =
    (record w { store = mark_substituter_miss now tenant hash_part w.store }, none)
resolve_loop up now tenant hash_part store_dir ((url, key) ∷ rest) w =
    or_next (resolve_loop up now tenant hash_part store_dir rest)
      (resolve_from_one up tenant hash_part store_dir url key w)

unfoldable pub resolve : Upstream → ℕ → TenantId → Bytes → Bytes → World → World × Hit
unfolding resolve_loop trusted_substituters substituter_negative_cache_hit
resolve up now tenant hash_part store_dir w =
    if substituter_negative_cache_hit now tenant hash_part w.store
    then (w, none)
    else resolve_loop up now tenant hash_part store_dir (trusted_substituters tenant w.store) w
