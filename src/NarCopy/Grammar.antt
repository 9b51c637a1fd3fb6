-- ===== src/NarCopy/Grammar.antt =====
-- The archives that crates/daemon-protocol/src/nar.rs walks: a tree of files, symbolic links and
-- directories, and its encoding.
use kubernix.Prelude.{◌^◌, ◌<◌, ◌++◌, [], Bytes, Bool, true, false, codes, length, replicate}
use kubernix.Prelude.Eq.{nat_eq, list_eq}
use kubernix.Wire.{padding, to_le_bytes, u64_mod, field}

-- A file with whether it is executable, a symbolic link, or a directory.
mutual
  pub data Node : Type 0 where
    regular : Bool → Bytes → Node
    symlink : Bytes → Node
    directory : Entries → Node

  pub data Entries : Type 0 where
    none : Entries
    entry : Bytes → Node → Entries → Entries

-- The fields from the tag of a file up to its contents.
abbrev pub mode : Bool → Bytes
mode true = field (codes "executable") ++ (field [] ++ field (codes "contents"))
mode false = field (codes "contents")

abbrev pub contents : Bytes → Bytes
contents bytes =
    to_le_bytes 8 (length bytes)
    ++ ((bytes ++ replicate (padding (length bytes)) 0) ++ field (codes ")"))

abbrev pub node_of : Bytes → Bytes → Bytes
node_of kind body = field (codes "(") ++ (field (codes "type") ++ (field kind ++ body))

abbrev pub entry_head : Bytes → Bytes
entry_head name =
    field (codes "(") ++ (field (codes "name") ++ (field name ++ field (codes "node")))

unfoldable mutual
  pub encode : Node → Bytes
  encode (regular x bytes) = node_of (codes "regular") (mode x ++ contents bytes)
  encode (symlink target) =
      node_of (codes "symlink") (field (codes "target") ++ (field target ++ field (codes ")")))
  encode (directory es) = node_of (codes "directory") (encode_entries es)

  pub encode_entries : Entries → Bytes
  encode_entries none = field (codes ")")
  encode_entries (entry name n es) =
      field (codes "entry")
      ++ (entry_head name ++ (encode n ++ (field (codes ")") ++ encode_entries es)))

-- Each text fits in a buffer, and each file in a 64-bit size.
unfoldable mutual
  pub Fits : Node → Type 0
  Fits (regular x bytes) = length bytes < u64_mod
  Fits (symlink target) = length target < 2 ^ 63
  Fits (directory es) = FitEntries es

  pub FitEntries : Entries → Type 0
  FitEntries none = Unit {0}
  FitEntries (entry name n es) = length name < 2 ^ 63 × (Fits n × FitEntries es)

-- The archive of a tree.
abbrev pub nar : Node → Bytes
nar t = field (codes "nix-archive-1") ++ encode t
