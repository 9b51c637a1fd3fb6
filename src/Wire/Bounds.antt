-- ===== src/Wire/Bounds.antt =====
-- What `Reader` of crates/types/src/wire.rs does at the end of the buffer, and on a length prefix
-- that no buffer can meet.
use kubernix.Prelude.{ℕ, ◌+◌, ◌-◌, ◌<◌, ◌≤◌, ◌≡◌, ◌⊎◌, ◌++◌, Bytes, length, arith, length-append}
use kubernix.Prelude.Outcome.{ok, err, panic}
use kubernix.Wire.{padding, to_le_bytes, u64_mod}
use kubernix.Wire.Reader
use kubernix.Wire.Reader.{Truncated, ◌>>=◌, slice}
use kubernix.Wire.Reads.{IsBuffer, Reads-u64, length-to_le_bytes, Reads-start}

-- `Reader::bytes` of a length that does not wrap returns the next `len` bytes if the buffer has
-- them, and the error at `pos` if it has not; it does not panic.
pub bytes_of_cases :
    (len pos : ℕ) (bytes : Bytes)
    → IsBuffer bytes
    → pos + len < u64_mod
    → ((pos + len ≤ length bytes)
        × (Reader.bytes_of len bytes pos
            ≡ ok (slice bytes pos (pos + len), pos + len + padding len)))
      ⊎ ((length bytes < pos + len) × (Reader.bytes_of len bytes pos ≡ err (record { at = pos })))
unfolding Reader.bytes_of padding
bytes_of_cases len pos bytes small h = ground arith

-- A length that wraps the end round to before its start, inside the buffer.
bytes_of_wraps :
    (len pos : ℕ) (bytes : Bytes)
    → len < u64_mod
    → u64_mod ≤ pos + len
    → pos ≤ length bytes
    → IsBuffer bytes
    → Reader.bytes_of len bytes pos ≡ panic
unfolding Reader.bytes_of
bytes_of_wraps len pos bytes hi lo inside small = ground arith

-- A length prefix within eight of 2 ^ 64 at the front of any buffer makes `Reader::string` panic,
-- whatever follows it: the end wraps round to before its start.
pub string_panics :
    (len : ℕ) (rest : Bytes)
    → u64_mod - 8 ≤ len
    → len < u64_mod
    → IsBuffer (to_le_bytes 8 len ++ rest)
    → Reader.string (to_le_bytes 8 len ++ rest) 0 ≡ panic
unfolding Reader.string
string_panics len rest lo hi small =
    let bytes = to_le_bytes 8 len ++ rest in
    rw (Reads-start Reader.u64 (to_le_bytes 8 len) len (Reads-u64 len hi) rest small, ◌>>=◌)
      (rw length-to_le_bytes (rw (wraps len rest lo hi small, ◌>>=◌)))
  where
    wraps :
        (len : ℕ) (rest : Bytes)
        → u64_mod - 8 ≤ len
        → len < u64_mod
        → IsBuffer (to_le_bytes 8 len ++ rest)
        → Reader.bytes_of len (to_le_bytes 8 len ++ rest) 8 ≡ panic
    wraps len rest lo hi small =
        bytes_of_wraps len 8 (to_le_bytes 8 len ++ rest) hi (omega arith)
          (omega (arith, length-append (to_le_bytes 8 len) rest, length-to_le_bytes 8 len)) small
