-- ===== src/Compression.antt =====
-- crates/types/src/compression.rs
pub mod Names
use kubernix.Prelude.{ℕ, ◌≡◌, Bytes, Bool, codes, [], ◌∷◌, List, if◌then◌else◌}
use kubernix.Prelude.Eq.{◌==◌, nat_eq, list_eq}
use kubernix.Prelude.Outcome.{Outcome, ok, err}

pub data Compression : Type 0 where
  none zstd xz bzip2 gzip lz4 brotli lzip : Compression

unfoldable pub as_str : Compression → Bytes
as_str none = codes "none"
as_str zstd = codes "zstd"
as_str xz = codes "xz"
as_str bzip2 = codes "bzip2"
as_str gzip = codes "gzip"
as_str lz4 = codes "lz4"
as_str brotli = codes "br"
as_str lzip = codes "lzip"

pub record UnsupportedCompression : Type 0 where
  pub text : Bytes

unfoldable pub from_str : Bytes → Outcome UnsupportedCompression Compression
from_str s =
    if s == codes "none"
    then ok none
    else if s == codes "zstd"
    then ok zstd
    else if s == codes "xz"
    then ok xz
    else if s == codes "bzip2"
    then ok bzip2
    else if s == codes "gzip"
    then ok gzip
    else if s == codes "lz4"
    then ok lz4
    else if s == codes "br"
    then ok brotli
    else if s == codes "lzip"
    then ok lzip
    else err (record { text = s })
