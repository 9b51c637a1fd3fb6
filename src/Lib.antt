-- ===== src/Lib.antt =====
-- Kubernix: a multi-tenant remote build service for Nix.
--
-- A frontend (crates/server) speaks the Nix daemon protocol with clients, keeps each tenant's valid
-- paths in a store, publishes build jobs on a queue, and signs the URLs by which workers reach the
-- object store. A worker (crates/worker) takes a job, builds it in the tenant's virtual machine and
-- uploads the outputs. Both use the types of crates/types and the keys of crates/signing.
--
-- Which file models what:
--
--   Wire, Wire/Reader       crates/types/src/wire.rs: write_u64, write_bytes, padding, and Reader with
--                           its position passed along
--   Utf8                    String::from_utf8_lossy, as Reader::string uses it
--   StorePath               crates/types/src/store_path.rs
--   Derivation              crates/types/src/derivation.rs: parse, and the types System and Output
--   TenantId                crates/types/src/tenant.rs
--   Tenant                  crates/server/src/tenant.rs: Tenant::from_ssh and derive_id
--   Compression             crates/types/src/compression.rs
--   Base32                  crates/signing/src/base32.rs: encode, is_valid, decode
--   Keys                    crates/types/src/object_key.rs, and Tier, nar_key, substituted_nar_key and
--                           log_key of crates/server/src/store.rs
--   Uploads                 crates/server/src/uploads.rs: key_is_permitted; Uploads/Handler: handle
--   Claims                  crates/server/src/capability.rs: the claims of a token
--   PathInfo, MemoryStore   crates/server/src/store.rs: the records, and the store in memory;
--                           MemoryStore/Methods and MemoryStore/Sharing are its methods
--   ContentPath             crates/server/src/store_path.rs: the path of content; ContentPath/Check:
--                           verify and verify_fixed_output; ContentPath/Token: regular_file_contents
--   Jobs                    crates/server/src/jobs.rs: jobs_subject; crates/worker/src/main.rs:
--                           worker_subjects_and_consumer and worker_capabilities_satisfy
--   Retry                   crates/worker/src/main.rs: next_action and the loop that retries a build
--   VmPool                  crates/worker/src/vm.rs: VmPool, over a launcher that answers
--   Signing                 crates/signing/src/lib.rs: Fingerprint and LocalSigner
--   Substitute              crates/server/src/substitute.rs: slug_for; Substitute/Narinfo: the parsing;
--                           Substitute/Fetch: fetch_one; Substitute/Resolve: exists and resolve
--   DaemonRpc               crates/server/src/daemon_rpc.rs: record_outputs, resolve_verified,
--                           realise and what they use; DaemonRpc/Push: NarSink::finalize;
--                           DaemonRpc/Available: all_outputs_available; DaemonRpc/Queries: the
--                           queries, add_signatures and build_paths; DaemonRpc/Sessions: the
--                           requests as steps
--   NarCopy                 crates/daemon-protocol/src/nar.rs: copy_nar, and the fields it reads
--                           and writes (wire.rs there)
--   HttpCache               crates/server/src/http.rs: render_narinfo; HttpCache/Routes and
--                           HttpCache/Upstreams: the handlers of the routes
--   World                   the store and the bucket of objects, which handlers change together
--   Uid                     crates/worker/src/uid.rs: UidAllocator and parse_uid_map_bound
--   Prelude                 the helpers they share: Boolean tests, lists, texts, finite maps, and
--                           Outcome, which is the result, the error or the panic of a function
--
-- How they interact: Wire/Reader is used by Derivation; Base32 and StorePath give the hash parts from
-- which Keys makes object keys; Uploads decides on these keys for a TenantId; MemoryStore keeps
-- PathInfo by tenant; ContentPath uses StorePath, Base32 and the tokens of Wire. DaemonRpc calls
-- ContentPath/Check, Keys, Signing, Substitute and MemoryStore, and every one of its handlers is shown
-- to be a sequence of MemoryStore/History's operations for one tenant (MemoryStore/Runs), so what
-- holds after any operations holds after any requests. HttpCache reads the same store. VmPool uses
-- Uid. The other files below a component hold its proofs, and Examples holds the theorems at
-- concrete inputs.
--
-- Conventions. A Rust String is the list of its UTF-8 bytes. A usize has 64 bits and its addition
-- wraps, as in a release build; a buffer has fewer than 2 ^ 63 bytes. A HashMap is an association
-- list, whose order stands for the unspecified order of iteration; a BTreeMap is a sorted list. A
-- method that takes a lock runs to its end, so it is one function of the state.
--
-- Bounds and fuel. The retry loop runs on fuel, and four rounds are shown to be enough. Every other
-- loop is structural recursion. The uids are below 2 ^ 16, so the counter of 32 bits never wraps.
--
-- Parameters. The capnp decoding, the verification of a token and the signing of a URL in
-- Uploads/Handler, and SHA-256 in ContentPath, are code of other packages or of other parts, and
-- arguments of the definitions that use them. What a build and its guest do in Retry is given round
-- by round. The launcher and the disk of VmPool, the HTTP servers, decoders and uploads of Substitute,
-- ed25519, base64, zstd and the object store of DaemonRpc and HttpCache answer each request with
-- given values; a theorem that relies on what they answer has that as a hypothesis.
--
-- Not modelled: the PostgreSQL store and the garbage collector (crates/server/src/postgres_store.rs,
-- gc.rs), whose behaviour is that of SQL statements; the capnp glue around the RPC handlers and the
-- dispatch of a build (crates/server/src/daemon_rpc.rs), and the SSH and TLS frontends; the processes
-- behind the launcher and the transfers of the worker; the connection of the
-- daemon protocol client (crates/daemon-protocol/src/connection.rs); the guest's programs (crates/guest-agent, crates/guest-init); the Nix
-- plugin, the charts and the Nix expressions.
pub mod Base32
pub mod Claims
pub mod Compression
pub mod ContentPath
pub mod DaemonRpc
pub mod Derivation
pub mod Examples
pub mod HttpCache
pub mod Jobs
pub mod Keys
pub mod MemoryStore
pub mod NarCopy
pub mod PathInfo
pub mod Prelude
pub mod Retry
pub mod Signing
pub mod StorePath
pub mod Substitute
pub mod Tenant
pub mod TenantId
pub mod Uid
pub mod Uploads
pub mod Utf8
pub mod VmPool
pub mod Wire
pub mod World
