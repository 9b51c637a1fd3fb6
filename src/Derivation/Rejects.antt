-- ===== src/Derivation/Rejects.antt =====
-- crates/types/src/derivation.rs: a count of outputs that no memory holds.
use kubernix.Prelude.{ℕ, ◌*◌, ◌^◌, ◌<◌, ◌≤◌, ◌≡◌, ◌++◌, Bytes, arith}
use kubernix.Prelude.Outcome.{panic}
use kubernix.Wire.{u64_mod, to_le_bytes}
use kubernix.Wire.Reader
use kubernix.Wire.Reader.{◌>>=◌}
use kubernix.Wire.Reads.{IsBuffer, Reads-u64, Reads-start}
use kubernix.Derivation.{output_size, with_capacity, outputs_of, parse_at, parse}

-- A derivation that claims more outputs than a vector can hold makes `parse` panic, whatever the
-- store directory and whatever follows the count.
pub parse_huge_count_panics :
    (count : ℕ) (rest store_dir : Bytes)
    → 2 ^ 63 ≤ count * output_size
    → count < u64_mod
    → IsBuffer (to_le_bytes 8 count ++ rest)
    → parse (to_le_bytes 8 count ++ rest) store_dir ≡ panic
unfolding parse parse_at outputs_of with_capacity
parse_huge_count_panics count rest store_dir big fits small =
    ground
      (arith, Reads-start Reader.u64 (to_le_bytes 8 count) count (Reads-u64 count fits) rest small)
