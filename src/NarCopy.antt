-- ===== src/NarCopy.antt =====
-- crates/daemon-protocol/src/nar.rs: copying an archive whose end only its grammar shows, and the
-- reading and writing of fields in crates/daemon-protocol/src/wire.rs. What is left to read goes in,
-- and what is left after it and what was written come out. After an error the sink may hold a part of
-- the archive; that part is left out.
pub mod Copies
pub mod Grammar
pub mod Pieces
pub mod Archives
use kubernix.Prelude.{
  ℕ, zero, suc, ◌+◌, ◌^◌, ◌%◌, ◌≡◌, ◌++◌, ◌∷◌, [], List, Bytes, Bool, true, false, codes, leb, ltb,
  length, take, drop, replicate, if◌then◌else◌,
}
use kubernix.Prelude.Eq.{◌==◌, nat_eq, list_eq}
use kubernix.Prelude.Outcome.{Outcome, ok, err, panic}
use kubernix.Wire.{padding, to_le_bytes, from_le_bytes}
use kubernix.Utf8.{from_utf8_lossy}

-- `out_of_fuel` is not of the source.
pub data NarError : Type 0 where
  io out_of_fuel : NarError
  unexpected : Bytes → Bytes → NarError
  unknown_type : Bytes → NarError

-- The result, what is left to read, and what was written.
abbrev pub Copy : Type 0 → Type 0
Copy A = Bytes → Outcome NarError (A × Bytes × Bytes)

abbrev pub and_then :
    {B : Type 0}
    → Bytes
    → Outcome NarError (B × Bytes × Bytes)
    → Outcome NarError (B × Bytes × Bytes)
and_then before (ok (b, rest, written)) = ok (b, rest, before ++ written)
and_then before (err e) = err e
and_then before panic = panic

abbrev pub resume :
    {A B : Type 0}
    → (A → Copy B)
    → Outcome NarError (A × Bytes × Bytes)
    → Outcome NarError (B × Bytes × Bytes)
resume next (ok (a, rest, written)) = and_then written (next a rest)
resume next (err e) = err e
resume next panic = panic

infixl 5 ◌>>=◌
abbrev pub ◌>>=◌ : {A B : Type 0} → Copy A → (A → Copy B) → Copy B
(first >>= next) input = resume next (first input)

abbrev pub pure : {A : Type 0} → A → Copy A
pure a input = ok (a, input, [])

abbrev pub fail : {A : Type 0} → NarError → Copy A
fail e input = err e

-- `reader.read_exact` of `n` bytes, and nothing is written.
unfoldable pub read_exact : ℕ → Copy Bytes
read_exact n input = if ltb (length input) n then err io else ok (take n input, drop n input, [])

-- `sink.write_all`
unfoldable pub write_all : Bytes → Copy (Unit {0})
write_all bytes input = ok (tt, input, bytes)

unfoldable pub read_wire_u64 : Copy ℕ
read_wire_u64 = do buf ← read_exact 8; pure (from_le_bytes buf)

-- `vec![0u8; len]` panics for more than `isize::MAX` bytes.
unfoldable pub allocate : ℕ → Copy (Unit {0})
allocate len input = if leb (2 ^ 63) len then panic else ok (tt, input, [])

unfoldable pub read_wire_bytes : Copy Bytes
unfolding read_wire_u64 allocate
read_wire_bytes = do
  len ← read_wire_u64
  _ ← allocate len
  buf ← read_exact len
  _ ← read_exact (padding len)
  pure buf

unfoldable pub write_wire_u64 : ℕ → Copy (Unit {0})
unfolding write_all
write_wire_u64 value = write_all (to_le_bytes 8 value)

unfoldable pub write_wire_bytes : Bytes → Copy (Unit {0})
unfolding write_wire_u64 write_all
write_wire_bytes value = do
  _ ← write_wire_u64 (length value)
  _ ← write_all value
  write_all (replicate (padding (length value)) 0)

unfoldable pub copy_u64 : Copy ℕ
unfolding read_wire_u64 write_wire_u64
copy_u64 = do value ← read_wire_u64; _ ← write_wire_u64 value; pure value

unfoldable pub copy_str : Copy Bytes
unfolding read_wire_bytes write_wire_bytes
copy_str = do bytes ← read_wire_bytes; _ ← write_wire_bytes bytes; pure (from_utf8_lossy bytes)

unfoldable pub expect : Bytes → Bytes → Copy (Unit {0})
expect got expected = if got == expected then pure tt else fail (unexpected expected got)

-- `expect(&copy_str(reader, sink).await?, expected)?`
unfoldable pub expect_str : Bytes → Copy (Unit {0})
unfolding copy_str expect
expect_str expected = do got ← copy_str; expect got expected

-- The chunks of the loop, together.
unfoldable pub copy_padded : ℕ → Copy (Unit {0})
unfolding read_exact write_all
copy_padded len = do
  content ← read_exact len
  _ ← write_all content
  _ ← read_exact (padding len)
  write_all (replicate (padding len) 0)

unfoldable pub executable_tag : Bytes → Copy Bytes
unfolding expect_str copy_str
executable_tag tag =
    if tag == codes "executable" then (do _ ← expect_str []; copy_str) else pure tag

unfoldable pub copy_regular : Copy (Unit {0})
unfolding copy_str executable_tag expect copy_u64 copy_padded expect_str
copy_regular = do
  first ← copy_str
  tag ← executable_tag first
  _ ← expect tag (codes "contents")
  size ← copy_u64
  _ ← copy_padded size
  expect_str (codes ")")

unfoldable pub copy_symlink : Copy (Unit {0})
unfolding copy_str expect_str
copy_symlink = do _ ← expect_str (codes "target"); _ ← copy_str; expect_str (codes ")")

-- What comes in front of the node of an entry, whose tag is read.
unfoldable pub copy_entry_head : Bytes → Copy (Unit {0})
unfolding expect expect_str copy_str
copy_entry_head tag = do
  _ ← expect tag (codes "entry")
  _ ← expect_str (codes "(")
  _ ← expect_str (codes "name")
  _ ← copy_str
  expect_str (codes "node")

-- The `match` on the type of a node, with the loop of a directory given.
unfoldable pub copy_typed : Copy (Unit {0}) → Bytes → Copy (Unit {0})
unfolding copy_regular copy_symlink
copy_typed entries node_type =
    if node_type == codes "regular"
    then copy_regular
    else if node_type == codes "symlink"
    then copy_symlink
    else if node_type == codes "directory"
    then entries
    else fail (unknown_type node_type)

-- The end of a directory, or one entry and the rest.
unfoldable pub copy_tagged : Copy (Unit {0}) → Copy (Unit {0}) → Bytes → Copy (Unit {0})
unfolding copy_entry_head expect_str
copy_tagged node entries tag =
    if tag == codes ")"
    then pure tt
    else (do _ ← copy_entry_head tag; _ ← node; _ ← expect_str (codes ")"); entries)

unfoldable mutual
  unfolding copy_typed copy_tagged expect_str copy_str

  pub copy_node : ℕ → Copy (Unit {0})
  copy_node zero = fail out_of_fuel
  copy_node (suc fuel) = do
    _ ← expect_str (codes "(")
    _ ← expect_str (codes "type")
    node_type ← copy_str
    copy_typed (copy_entries fuel) node_type

  -- The loop over the entries of a directory.
  pub copy_entries : ℕ → Copy (Unit {0})
  copy_entries zero = fail out_of_fuel
  copy_entries (suc fuel) = do tag ← copy_str; copy_tagged (copy_node fuel) (copy_entries fuel) tag

-- Every round reads something, so the length of the input is enough fuel.
unfoldable pub copy_nar : Copy (Unit {0})
unfolding expect_str copy_node
copy_nar input = (do _ ← expect_str (codes "nix-archive-1"); copy_node (length input)) input
