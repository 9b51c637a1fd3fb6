-- ===== src/Examples/Frontend.antt =====
-- The handlers of the frontend (crates/server/src) and the signatures (crates/signing/src/lib.rs).
use kubernix.Prelude.{
  [], ◌∷◌, ◌++◌, Bytes, codes, refl, none, some, true, false, ◌≡◌, ◌↔◌, ◌∙◌, ap, length,
  lacks→Without, replicate, eqb, eqb_iff, strip_suffix, arith, subst, some-injective,
}
use kubernix.Prelude.Int.{pos}
use kubernix.Prelude.Map
use kubernix.TenantId.{TenantId, from_wire, all_wire_chars}
use kubernix.StorePath.{StorePath, hash_part, to_full}
use kubernix.Keys.{verified, built, tier_key, is_vouchable}
use kubernix.Base32
use kubernix.Compression.{Compression}
use kubernix.PathInfo.{PathInfo, RemoteObject, sha256}
use kubernix.Signing.{Ed25519, Fingerprint}
use kubernix.Signing.Covers.{LacksComma, compute-injective}
use kubernix.MemoryStore
use kubernix.MemoryStore.{MemoryStore}
use kubernix.MemoryStore.Methods.{
  is_valid_path, put_path, find_hash_part, query_path_from_hash_part, has_hash_part,
  query_path_info, output_object,
}
use kubernix.MemoryStore.Sharing
use kubernix.MemoryStore.Sharing.{trusted_substituters}
use kubernix.Substitute.{Upstream, success, Body}
use kubernix.Substitute.Fetch.{fetch_one}
use kubernix.Substitute.Resolve.{resolve}
use kubernix.Substitute.HeldBack.{Conforms, Bounded, StoresChecked, fetch_one-StoresChecked}
use kubernix.Substitute.Sources.{PulledFromAny, resolve-PulledFromAny}
use kubernix.World.{World}
use kubernix.DaemonRpc.{
  Outside, Connection, OutputInfo, record_outputs, resolve_verified, expected_paths,
}
use kubernix.DaemonRpc.Push.{Push, Session, finalize}
use kubernix.DaemonRpc.Pushed.{PushPost, finalize-PushPost}
use kubernix.DaemonRpc.Outputs.{OutputsPost, record_outputs-OutputsPost}
use kubernix.DaemonRpc.Copied.{ResolvedPost, resolve_verified-ResolvedPost}
use kubernix.DaemonRpc.Queries.{add_signatures}
use kubernix.DaemonRpc.Sessions.{with_store}
use kubernix.HttpCache.{okay, temporary, object_key_basename, render_narinfo, for_tenant}
use kubernix.HttpCache.Routes.{
  HttpState, narinfo, narinfo_of_hash, narinfo_of_path, narinfo_of_info, is_served, render_object,
  leaves_prefix, redirect, nar_object, nar_for, nar,
}
use kubernix.HttpCache.Served.{IsNarinfo, narinfo_sound}
use kubernix.HttpCache.Keyed.{nar_reaches_built, nar_stays_with_tenant}
use kubernix.Examples.Data.{acme, beta, hash_text, hello, hello_drv, acme_nar, shared_nar}

abbrev mark : Fingerprint
mark = record {
  path = codes "/nix/store/a";
  nar_hash = 1 ∷ [];
  nar_size = 12;
  references = hello ∷ (hello_drv ∷ []);
  store_dir = codes "/nix/store";
}

mark_refs : LacksComma mark.store_dir mark.references
unfolding to_full
mark_refs = (refl, (refl, tt))

compute-injective_example :
    (mark.path ≡ mark.path)
    × (Base32.encode mark.nar_hash ≡ Base32.encode mark.nar_hash)
    × (mark.nar_size ≡ mark.nar_size)
    × (mark.references ≡ mark.references)
compute-injective_example =
    compute-injective mark mark refl (refl, refl) (mark_refs, mark_refs) refl

abbrev the_body : Body
the_body = record {
  content_length = some 3;
  chunks = (1 ∷ []) ∷ ((2 ∷ (3 ∷ [])) ∷ []);
  ends_well = true;
}

abbrev the_narinfo : Bytes
the_narinfo =
    codes "StorePath: /nix/store/0123456789abcdfghijklmnpqrsvwxyz-hello"
    ++ (10
        ∷ (codes "URL: nar/a"
            ++ (10
                ∷ (codes "NarHash: sha256:0000000000000000000000000000000000000000000000000000"
                    ++ (10 ∷ (codes "NarSize: 3" ++ (10 ∷ [])))))))

-- Servers that have one path, and an object store that checks the declared length.
abbrev up : Upstream
up = record {
  sha256 = λ b. replicate 32 0;
  head = λ url. true;
  get_text = λ url. success the_narinfo;
  get_body = λ url. success the_body;
  decodes = λ c seen chunk. true;
  decoded = λ c b. some b;
  put_object_stream = λ key body len. eqb (length body) len;
}

the_body-Bounded : Bounded the_body 3
the_body-Bounded = (omega arith, (omega arith, (omega arith, tt)))

up-Conforms : Conforms up
up-Conforms = record {
  uploads = λ key body len h. (eqb_iff (length body) len).0 h;
  downloads = λ url body len e d.
      let same : the_body ≡ body = cc e in
      subst (λ b. Bounded b len) same
        (subst (Bounded the_body) (some-injective (ap (λ b. b.content_length) same ∙ d))
          the_body-Bounded);
}

fetch_one-StoresChecked_example :
    StoresChecked up (fetch_one up (codes "https://cache.example") hash_text (codes "/nix/store"))
fetch_one-StoresChecked_example =
    fetch_one-StoresChecked up (codes "https://cache.example") hash_text (codes "/nix/store")
      up-Conforms

-- A store where `acme` trusts a substituter and takes pushes that are not verified.
abbrev prepared : MemoryStore
prepared = record MemoryStore.new {
  inner =
      (
        acme,
        record MemoryStore.empty_inner {
          reject_unverified_pushes = some false;
          substituters = (codes "https://cache.example", codes "k") ∷ [];
        },
      )
      ∷ [];
}

abbrev world : World
world = record { store = prepared; bucket = [] }

resolve-PulledFromAny_example :
    PulledFromAny acme
      (trusted_substituters acme prepared)
      prepared
      (resolve up 5 acme hash_text (codes "/nix/store") world)
resolve-PulledFromAny_example = resolve-PulledFromAny up 5 acme hash_text (codes "/nix/store") world

abbrev ed : Ed25519
ed = record { sign = λ key m. m; verifying_key = λ key. key; base64 = λ b. b }

abbrev out : Outside
out = record {
  up = up;
  ed = ed;
  zstd = λ b. some b;
  put_object = λ key b. true;
  seed = codes "seed";
  now = 5;
}

abbrev conn : Connection
conn = record {
  tenant = acme;
  store_dir = codes "/nix/store";
  has_uploader = true;
  use_substitutes = true;
}

abbrev info : PathInfo
info = record {
  path = hello;
  deriver = some hello_drv;
  nar_hash = record { hash_type = sha256; bytes = [] };
  nar_size = 96;
  references = [];
  registration_time = pos 0;
  ultimate = false;
  sigs = [];
}

abbrev push : Push
push = record { info = info; ca = none; nar = codes "nar" }

abbrev session : Session
session = record { world = world; staged = [] }

finalize-PushPost_example : PushPost out conn push session (finalize out conn push session)
finalize-PushPost_example = finalize-PushPost out conn push session

abbrev output : OutputInfo
output = record {
  store_path = hello;
  nar_hash = [];
  nar_size = 96;
  file_hash = [];
  file_size = 80;
  key = acme_nar;
  compression = Compression.zstd;
  references = [];
  deriver = some hello_drv;
}

record_outputs-OutputsPost_example :
    OutputsPost out conn
      (output ∷ [])
      (expected_paths ((codes "out", hello) ∷ []))
      prepared
      (record_outputs out conn (output ∷ []) ((codes "out", hello) ∷ []) prepared)
record_outputs-OutputsPost_example =
    record_outputs-OutputsPost out conn (output ∷ []) ((codes "out", hello) ∷ []) prepared

abbrev object : RemoteObject
object = record { key = shared_nar; file_size = 80; file_hash = []; compression = Compression.zstd }

-- `beta` holds the path as verified.
abbrev held : MemoryStore
held = record MemoryStore.new {
  inner =
      (
        beta,
        record MemoryStore.empty_inner {
          paths = (hello, info) ∷ [];
          remote = (hello, object) ∷ [];
          tiers = (hello, verified) ∷ [];
        },
      )
      ∷ [];
}

resolve_verified-ResolvedPost_example :
    ResolvedPost out conn hash_text held (resolve_verified out conn hash_text held)
resolve_verified-ResolvedPost_example = resolve_verified-ResolvedPost out conn hash_text held

abbrev pushed : Session
pushed = (finalize out conn push session).0

abbrev empty_session : Session
empty_session = record { world = record { store = MemoryStore.new; bucket = [] }; staged = [] }

-- `acme`'s build reports its output, and the client adds a signature to it.
abbrev recorded : Session
recorded =
    with_store empty_session
      (record_outputs out conn (output ∷ []) ((codes "out", hello) ∷ []) MemoryStore.new).0

abbrev signed : Session
signed = with_store recorded (add_signatures conn hello (codes "sig" ∷ []) recorded.world.store).0

recorded_valid : is_valid_path acme hello signed.world.store ≡ true
unfolding is_valid_path Map.contains_key add_signatures Map.insert Sharing.sign_path
    Sharing.sign_found record_outputs put_path Sharing.give_signer Sharing.give_found
recorded_valid = refl

abbrev state : HttpState
state = record {
  store_dir = codes "/nix/store";
  priority = 50;
  has_uploader = true;
  presign_get = λ key. some key.as_str;
  get_object = λ key. none;
}

abbrev file : Bytes
file = hash_text ++ codes ".narinfo"

abbrev body : Bytes
body = render_narinfo info shared_nar 80 [] Compression.zstd (codes "/nix/store")

served : narinfo state (codes "beta-2") file held ≡ okay body
unfolding narinfo for_tenant from_wire all_wire_chars narinfo_of_hash narinfo_of_path
    narinfo_of_info is_served is_vouchable render_object query_path_from_hash_part query_path_info
    output_object has_hash_part hash_part Map.get Sharing.tier find_hash_part
served = refl

narinfo_sound_example :
    (tenant : TenantId) × (hash : Bytes) × (path : StorePath) × (from_wire (codes "beta-2")
      ≡ some tenant)
    × (strip_suffix file (codes ".narinfo") ≡ some hash)
    × (query_path_from_hash_part tenant hash held ≡ some path)
    × IsNarinfo state held tenant path body
narinfo_sound_example = narinfo_sound state held body (codes "beta-2") file served

nar_reaches_built_example :
    (nar_object acme (object_key_basename (tier_key acme verified hash_text).as_str)
      ≡ tier_key acme verified hash_text)
    ↔ (verified ≡ built)
nar_reaches_built_example =
    nar_reaches_built acme verified hash_text (lacks→Without b'/' hash_text refl)

sent : nar state (codes "acme") (codes "a.nar") ≡ temporary (codes "acme/nar/a.nar")
unfolding nar for_tenant from_wire all_wire_chars nar_for leaves_prefix redirect nar_object
sent = refl

nar_stays_with_tenant_example :
    (tenant : TenantId) × (from_wire (codes "acme") ≡ some tenant)
    × (state.presign_get (nar_object tenant (codes "a.nar")) ≡ some (codes "acme/nar/a.nar"))
    × (leaves_prefix (codes "a.nar") ≡ false)
    × ((other : TenantId) (raw' file' : Bytes)
        → from_wire raw' ≡ some other
        → nar_object other file' ≡ nar_object tenant (codes "a.nar")
        → other ≡ tenant)
nar_stays_with_tenant_example =
    nar_stays_with_tenant state (codes "acme") (codes "a.nar") (codes "acme/nar/a.nar") sent
