-- ===== src/Wire.antt =====
-- crates/types/src/wire.rs: little-endian 64-bit integers and padded, length-prefixed strings.
-- A `usize` has 64 bits. Its addition wraps, as in a release build.
pub mod Reader
pub mod Reads
pub mod RoundTrip
pub mod Bounds
use kubernix.Prelude.{
  ℕ, zero, suc, ◌+◌, ◌-◌, ◌*◌, ◌/◌, ◌%◌, ◌^◌, List, [], ◌∷◌, ◌++◌, Bytes, length, replicate,
}

abbrev pub u64_mod : ℕ
u64_mod = 2 ^ 64

unfoldable pub padding : ℕ → ℕ
padding len = (8 - len % 8) % 8

-- `value.to_le_bytes()`, on `n` bytes
unfoldable pub to_le_bytes : ℕ → ℕ → Bytes
to_le_bytes zero value = []
to_le_bytes (suc n) value = (value % 256) ∷ to_le_bytes n (value / 256)

-- `u64::from_le_bytes`
unfoldable pub from_le_bytes : Bytes → ℕ
from_le_bytes [] = 0
from_le_bytes (b ∷ bs) = b + 256 * from_le_bytes bs

unfoldable pub write_u64 : Bytes → ℕ → Bytes
write_u64 out value = out ++ to_le_bytes 8 value

unfoldable pub write_bytes : Bytes → Bytes → Bytes
write_bytes out value =
    (write_u64 out (length value % u64_mod) ++ value) ++ replicate (padding (length value)) 0

-- What the two writers append, each with its own fields from left to right.
unfoldable pub field : Bytes → Bytes
field value = to_le_bytes 8 (length value) ++ (value ++ replicate (padding (length value)) 0)
