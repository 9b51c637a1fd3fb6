-- ===== src/Compression/Names.antt =====
-- The names of crates/types/src/compression.rs are read back, and no other text is.
use mathlib.Core.Logic.{◌↔◌}
use kubernix.Prelude.{◌≡◌, Bytes, codes, refl, arith}
use kubernix.Prelude.Eq.{nat_eq, list_eq, ==→eq}
use kubernix.Prelude.Outcome.{ok}
use kubernix.Compression.{Compression, as_str, from_str}

from_str-as_str : (c : Compression) → from_str (as_str c) ≡ ok c
unfolding from_str as_str
from_str-as_str Compression.none = refl
from_str-as_str _ = refl

as_str-from_str : (s : Bytes) (c : Compression) → from_str s ≡ ok c → s ≡ as_str c
unfolding from_str as_str
as_str-from_str s c h = ground (
  arith,
  ==→eq s (codes "none"),
  ==→eq s (codes "zstd"),
  ==→eq s (codes "xz"),
  ==→eq s (codes "bzip2"),
  ==→eq s (codes "gzip"),
  ==→eq s (codes "lz4"),
  ==→eq s (codes "br"),
  ==→eq s (codes "lzip"),
)

-- A text is read as a compression exactly when it is that compression's name.
pub from_str_iff : (s : Bytes) (c : Compression) → (from_str s ≡ ok c) ↔ (s ≡ as_str c)
from_str_iff s c = (as_str-from_str s c, λ e. rw e (from_str-as_str c))
