-- ===== src/Substitute.antt =====
-- The pull-through cache of crates/server/src/substitute.rs, over a store that is `MemoryStore`. What
-- the HTTP servers and the object store answer, and the decoders, are parameters (`Upstream`). A
-- narinfo is taken to be ASCII.
pub mod Narinfo
pub mod Fetch
pub mod Resolve
pub mod Forwards
pub mod HeldBack
pub mod Sources
use kubernix.Prelude.{
  ℕ, ◌++◌, ◌∷◌, [], List, Option, none, some, Bytes, Bool, true, false, codes, eqb, leb, ltb, ◌&&◌,
  ◌||◌, not, if◌then◌else◌, map, split_first, starts_with, drop, split_once,
}
use kubernix.Compression.{Compression}
use kubernix.Keys.{ObjectKey}

-- A response of a server: 404, a success, or anything else.
pub data Response (A : Type 0) : Type 0 where
  success : A → Response A
  not_found failed : Response A

-- The body of a download: its declared length, the chunks that arrive, and whether it ends well.
pub record Body : Type 0 where
  pub content_length : Option ℕ
  pub chunks : List Bytes
  pub ends_well : Bool

-- `decodes c seen chunk` is whether the decoder takes `chunk` after `seen`, and `decoded c all` what it
-- has written when it is shut down. `put_object_stream key body len` is whether the upload of `body`,
-- declared to be of length `len`, succeeds.
pub record Upstream : Type 0 where
  pub sha256 : Bytes → Bytes
  pub head : Bytes → Bool
  pub get_text : Bytes → Response Bytes
  pub get_body : Bytes → Response Body
  pub decodes : Compression → Bytes → Bytes → Bool
  pub decoded : Compression → Bytes → Option Bytes
  pub put_object_stream : ObjectKey → Bytes → ℕ → Bool

-- `c.is_ascii_alphanumeric() || c == '.' || c == '-'`
unfoldable pub is_slug_char : ℕ → Bool
is_slug_char c =
    (leb b'a' c && leb c b'z')
    || (leb b'A' c && leb c b'Z')
    || (leb b'0' c && leb c b'9')
    || eqb c b'.'
    || eqb c b'-'

-- `url.split_once("://").map_or(url, |(_, rest)| rest)`
unfoldable pub behind_scheme : Bytes → Option Bytes
behind_scheme [] = none
behind_scheme (c ∷ s) =
    let later = behind_scheme s in
    if starts_with (c ∷ s) (codes "://") then some (drop 3 (c ∷ s)) else later

unfoldable pub without_scheme : Bytes → Bytes
unfolding behind_scheme
without_scheme url = elim (behind_scheme url) [ none ↦ url | some rest ↦ rest ]

-- Each byte of a character that is not ASCII gives a `-` here, and the character as a whole one in
-- the source; a URL is ASCII.
unfoldable pub slug_for : Bytes → Bytes
unfolding is_slug_char without_scheme
slug_for url = map (λ c. if is_slug_char c then c else b'-') (split_first b'/' (without_scheme url))
