-- ===== src/HttpCache.antt =====
-- The binary cache that the frontend serves over HTTP (crates/server/src/http.rs), over a store that is
-- `MemoryStore`, where `record_access` does nothing. A request is given what the object store answers;
-- the content types and the logging are left out.
pub mod Routes
pub mod Upstreams
pub mod Served
pub mod Keyed
use kubernix.Prelude.{
  ℕ, ◌++◌, ◌∷◌, [], List, Option, none, some, Bytes, Bool, true, false, codes, map, join, decimal,
  rsplit_first,
}
use kubernix.Base32
use kubernix.Compression
use kubernix.Compression.{Compression}
use kubernix.StorePath.{StorePath, to_full}
use kubernix.Keys.{ObjectKey}
use kubernix.PathInfo.{PathInfo}
use kubernix.TenantId.{TenantId, from_wire}

-- The status and the body, or the URL that the client is sent to.
pub data Response : Type 0 where
  okay : Bytes → Response
  not_found : Bytes → Response
  service_unavailable internal_server_error : Response
  temporary : Bytes → Response

unfoldable pub object_key_basename : Bytes → Bytes
object_key_basename key = rsplit_first b'/' key

abbrev pub newline : Bytes
newline = b'\n' ∷ []

-- A line of a narinfo.
unfoldable pub field : Bytes → Bytes → Bytes
field key value = key ++ (codes ": " ++ (value ++ newline))

unfoldable pub sig_lines : List Bytes → Bytes
unfolding field
sig_lines [] = []
sig_lines (sig ∷ sigs) = field (codes "Sig") sig ++ sig_lines sigs

unfoldable pub deriver_line : Option StorePath → Bytes
unfolding field
deriver_line none = []
deriver_line (some deriver) = field (codes "Deriver") deriver.as_str

unfoldable pub render_narinfo : PathInfo → ObjectKey → ℕ → Bytes → Compression → Bytes → Bytes
unfolding field sig_lines deriver_line object_key_basename Compression.as_str Base32.encode to_full
render_narinfo info key file_size file_hash compression store_dir =
    field (codes "StorePath") (to_full info.path store_dir)
    ++ (field (codes "URL") (codes "nar/" ++ object_key_basename key.as_str)
        ++ (field (codes "Compression") (Compression.as_str compression)
            ++ (field (codes "FileHash") (codes "sha256:" ++ Base32.encode file_hash)
                ++ (field (codes "FileSize") (decimal file_size)
                    ++ (field (codes "NarHash")
                          (codes "sha256:" ++ Base32.encode info.nar_hash.bytes)
                        ++ (field (codes "NarSize") (decimal info.nar_size)
                            ++ (field (codes "References")
                                  (join (codes " ") (map (λ r. r.as_str) info.references))
                                ++ (deriver_line info.deriver ++ sig_lines info.sigs))))))))

-- `tenant_of`, before the handler that `next` is.
unfoldable pub for_tenant : {A : Type 0} → (TenantId → A) → A → Bytes → A
unfolding from_wire
for_tenant next unknown raw = elim (from_wire raw) [ none ↦ unknown | some tenant ↦ next tenant ]

abbrev pub unknown_tenant : Response
unknown_tenant = not_found (codes "unknown tenant" ++ newline)
