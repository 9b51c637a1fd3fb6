-- ===== src/NarCopy/Archives.antt =====
-- `copy_nar` of crates/daemon-protocol/src/nar.rs on the archive of a tree.
use kubernix.Prelude.{
  ℕ, zero, suc, ◌+◌, ◌<◌, ◌≤◌, ◌≡◌, refl, ◌++◌, Bytes, codes, length, replicate, arith,
  length-append,
}
use kubernix.Prelude.Eq.{nat_eq, list_eq}
use kubernix.Prelude.Outcome.{ok}
use kubernix.Wire.{padding, to_le_bytes, field}
use kubernix.Wire.Reads.{length-to_le_bytes}
use kubernix.Utf8.{is_utf8}
use kubernix.NarCopy.{expect_str, copy_typed, copy_node, copy_entries, copy_nar}
use kubernix.NarCopy.Copies.{Copies, Moves-then}
use kubernix.NarCopy.Grammar.{
  Node, Entries, regular, symlink, directory, none, entry, mode, contents, node_of, entry_head,
  encode, encode_entries, Fits, FitEntries, nar,
}
use kubernix.NarCopy.Pieces.{
  Copies-copy_symlink, Copies-copy_regular, Copies-node_of, Copies-none, Copies-entry,
  Copies-expect_str,
}

length-field : (v : Bytes) → 8 ≤ length (field v)
unfolding field
length-field v = omega (
  arith,
  length-append (to_le_bytes 8 (length v)) (v ++ replicate (padding (length v)) 0),
  length-to_le_bytes 8 (length v),
)

length-node_of : (kind body : Bytes) → length body < length (node_of kind body)
length-node_of kind body =
    let close = field (codes "type") ++ (field kind ++ body) in
    omega (
      arith,
      length-append (field (codes "(")) close,
      length-field (codes "("),
      length-append (field (codes "type")) (field kind ++ body),
      length-append (field kind) body,
    )

length-entry :
    (name node rest : Bytes)
    → length node + length rest
      < length (field (codes "entry") ++ (entry_head name ++ (node ++ (field (codes ")") ++ rest))))
length-entry name node rest =
    let close = field (codes ")") ++ rest in
    omega (
      arith,
      length-append (field (codes "entry")) (entry_head name ++ (node ++ close)),
      length-field (codes "entry"),
      length-append (entry_head name) (node ++ close),
      length-append node close,
      length-append (field (codes ")")) rest,
    )

-- With as much fuel as the encoding has bytes, the copy comes to its end.
mutual
  unfolding encode Fits copy_typed is_utf8

  Copies-node :
      (n : ℕ) (t : Node) → Fits t → length (encode t) ≤ n → Copies (copy_node n) (encode t) tt
  Copies-node zero (regular x bytes) f h =
      absurd (omega (arith, h, length-node_of (codes "regular") (mode x ++ contents bytes)))
  Copies-node zero (symlink target) f h = absurd (
      omega (
        arith,
        h,
        length-node_of (codes "symlink")
            (field (codes "target") ++ (field target ++ field (codes ")"))),
      ))
  Copies-node zero (directory es) f h =
      absurd (omega (arith, h, length-node_of (codes "directory") (encode_entries es)))
  Copies-node (suc n) (regular x bytes) f h =
      Copies-node_of n (codes "regular") _ refl (omega arith) (Copies-copy_regular x bytes f)
  Copies-node (suc n) (symlink target) f h =
      Copies-node_of n (codes "symlink") _ refl (omega arith) (Copies-copy_symlink target f)
  Copies-node (suc n) (directory es) f h =
      Copies-node_of n (codes "directory") _ refl (omega arith) (
        Copies-entries n es f
          (omega (arith, h, length-node_of (codes "directory") (encode_entries es))))

  Copies-entries :
      (n : ℕ) (es : Entries)
      → FitEntries es
      → length (encode_entries es) ≤ n
      → Copies (copy_entries n) (encode_entries es) tt
  Copies-entries zero none f h = absurd (omega (arith, h, length-field (codes ")")))
  Copies-entries zero (entry name t es) f h =
      absurd (omega (arith, h, length-entry name (encode t) (encode_entries es)))
  Copies-entries (suc n) none f h = Copies-none n
  Copies-entries (suc n) (entry name t es) (f, (g, k)) h =
      Copies-entry n name (encode t) (encode_entries es) f
        (Copies-node n t g (omega (arith, h, length-entry name (encode t) (encode_entries es))))
        (Copies-entries n es k (omega (arith, h, length-entry name (encode t) (encode_entries es))))

-- `copy_nar`, at a reader that starts with the archive of a tree whose texts fit in a buffer and
-- whose files fit in a 64-bit size, succeeds, writes exactly the bytes of that archive, and leaves
-- the reader just behind them, whatever follows.
pub copy_nar-exact :
    (t : Node) (rest : Bytes) → Fits t → copy_nar (nar t ++ rest) ≡ ok (tt, rest, nar t)
unfolding copy_nar is_utf8
copy_nar-exact t rest f =
    (Moves-then (expect_str (codes "nix-archive-1")) (copy_node (length (nar t ++ rest)))
        (Copies-expect_str (codes "nix-archive-1") refl (omega arith))
        (Copies-node (length (nar t ++ rest)) t f (
          omega (
            arith,
            length-append (nar t) rest,
            length-append (field (codes "nix-archive-1")) (encode t),
          )))).at
      rest
