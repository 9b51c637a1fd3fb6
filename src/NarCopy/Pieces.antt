-- ===== src/NarCopy/Pieces.antt =====
-- What the parts of `copy_node` in crates/daemon-protocol/src/nar.rs copy, part by part.
use kubernix.Prelude.{
  ℕ, suc, ◌^◌, ◌<◌, ◌≡◌, refl, sym, ◌++◌, [], Bytes, Bool, true, false, codes, length, arith,
  append_assoc, append-nil, subst,
}
use kubernix.Prelude.Eq.{nat_eq, list_eq, ==-refl}
use kubernix.Wire.{u64_mod, field}
use kubernix.Utf8.{is_utf8, IsUtf8, from_utf8_lossy_valid}
use kubernix.NarCopy.{
  Copy, ◌>>=◌, copy_u64, copy_str, copy_padded, expect, expect_str, executable_tag, copy_regular,
  copy_symlink, copy_entry_head, copy_typed, copy_tagged, copy_node, copy_entries,
}
use kubernix.NarCopy.Copies.{
  Copies, Moves-bind, Moves-then, Moves-pure, Moves-eq, Copies-copy_u64, Copies-copy_str,
  Copies-copy_padded,
}
use kubernix.NarCopy.Grammar.{mode, contents, node_of, entry_head}

Copies-text : (v : Bytes) → IsUtf8 v → length v < 2 ^ 63 → Copies copy_str (field v) v
Copies-text v u h =
    subst (λ w. Copies copy_str (field v) w) (from_utf8_lossy_valid v u) (Copies-copy_str v h)

Copies-expect : (v : Bytes) → Copies (expect v v) [] tt
unfolding expect
Copies-expect v = record { at = λ rest. rw (==-refl v) }

pub Copies-expect_str :
    (v : Bytes) → IsUtf8 v → length v < 2 ^ 63 → Copies (expect_str v) (field v) tt
unfolding expect_str
Copies-expect_str v u h =
    Moves-eq (rw append-nil) (rw append-nil)
      (Moves-bind copy_str (λ got. expect got v) (Copies-text v u h) (Copies-expect v))

-- The tag in front of the contents, and then `next`.
Copies-mode :
    (x : Bool) (next : Bytes → Copy (Unit {0})) (bytes : Bytes)
    → Copies (next (codes "contents")) bytes tt
    → Copies (do first ← copy_str; tag ← executable_tag first; next tag) (mode x ++ bytes) tt
unfolding executable_tag is_utf8
Copies-mode true next bytes h =
    let front = field [] ++ field (codes "contents") in
    let e = sym (append_assoc (field (codes "executable")) front bytes) in
    Moves-eq e e (
      Moves-bind copy_str (λ first. do tag ← executable_tag first; next tag)
        (Copies-text (codes "executable") refl (omega arith))
        (Moves-bind (executable_tag (codes "executable")) next
          (Moves-then (expect_str []) copy_str (Copies-expect_str [] refl (omega arith))
            (Copies-text (codes "contents") refl (omega arith)))
          h))
Copies-mode false next bytes h =
    Moves-bind copy_str (λ first. do tag ← executable_tag first; next tag)
      (Copies-text (codes "contents") refl (omega arith))
      (Moves-bind (executable_tag (codes "contents")) next (Moves-pure (codes "contents")) h)

pub Copies-copy_symlink :
    (target : Bytes)
    → length target < 2 ^ 63
    → Copies copy_symlink (field (codes "target") ++ (field target ++ field (codes ")"))) tt
unfolding copy_symlink is_utf8
Copies-copy_symlink target h =
    Moves-then (expect_str (codes "target")) _
      (Copies-expect_str (codes "target") refl (omega arith))
      (Moves-then copy_str _ (Copies-copy_str target h)
        (Copies-expect_str (codes ")") refl (omega arith)))

Copies-copy_entry_head :
    (name : Bytes)
    → length name < 2 ^ 63
    → Copies (copy_entry_head (codes "entry")) (entry_head name) tt
unfolding copy_entry_head is_utf8
Copies-copy_entry_head name h =
    Moves-then (expect (codes "entry") (codes "entry")) _ (Copies-expect (codes "entry")) (
      Moves-then (expect_str (codes "(")) _ (Copies-expect_str (codes "(") refl (omega arith)) (
        Moves-then (expect_str (codes "name")) _
          (Copies-expect_str (codes "name") refl (omega arith))
          (Moves-then copy_str _ (Copies-copy_str name h)
            (Copies-expect_str (codes "node") refl (omega arith)))))

Copies-contents :
    (tag bytes : Bytes)
    → tag ≡ codes "contents"
    → length bytes < u64_mod
    → Copies
        (do
          _ ← expect tag (codes "contents")
          size ← copy_u64
          _ ← copy_padded size
          expect_str (codes ")"))
        (contents bytes)
        tt
unfolding is_utf8
Copies-contents tag bytes e h =
    Moves-then (expect tag (codes "contents")) _
      (subst (λ t. Copies (expect tag t) [] tt) e (Copies-expect tag))
      (Moves-bind copy_u64 (λ size. do _ ← copy_padded size; expect_str (codes ")"))
        (Copies-copy_u64 (length bytes) h)
        (Moves-then (copy_padded (length bytes)) _ (Copies-copy_padded bytes)
          (Copies-expect_str (codes ")") refl (omega arith))))

pub Copies-copy_regular :
    (x : Bool) (bytes : Bytes)
    → length bytes < u64_mod
    → Copies copy_regular (mode x ++ contents bytes) tt
unfolding copy_regular
Copies-copy_regular x bytes h =
    Copies-mode x
      (λ tag. do
        _ ← expect tag (codes "contents")
        size ← copy_u64
        _ ← copy_padded size
        expect_str (codes ")"))
      (contents bytes) (Copies-contents (codes "contents") bytes refl h)

-- The type of a node, and what `copy_typed` does at it.
pub Copies-node_of :
    (n : ℕ) (kind body : Bytes)
    → IsUtf8 kind
    → length kind < 2 ^ 63
    → Copies (copy_typed (copy_entries n) kind) body tt
    → Copies (copy_node (suc n)) (node_of kind body) tt
unfolding copy_node is_utf8
Copies-node_of n kind body u h body_copies =
    Moves-then (expect_str (codes "(")) _ (Copies-expect_str (codes "(") refl (omega arith)) (
      Moves-then (expect_str (codes "type")) _ (Copies-expect_str (codes "type") refl (omega arith))
        (Moves-bind copy_str (λ kind. copy_typed (copy_entries n) kind) (Copies-text kind u h)
          body_copies))

pub Copies-none : (n : ℕ) → Copies (copy_entries (suc n)) (field (codes ")")) tt
unfolding copy_node copy_tagged is_utf8
Copies-none n = Moves-eq (rw append-nil) (rw append-nil) (
    Moves-bind copy_str (λ tag. copy_tagged (copy_node n) (copy_entries n) tag)
      (Copies-text (codes ")") refl (omega arith)) (Moves-pure tt))

pub Copies-entry :
    (n : ℕ) (name node rest : Bytes)
    → length name < 2 ^ 63
    → Copies (copy_node n) node tt
    → Copies (copy_entries n) rest tt
    → Copies
        (copy_entries (suc n))
        (field (codes "entry") ++ (entry_head name ++ (node ++ (field (codes ")") ++ rest))))
        tt
unfolding copy_node copy_tagged is_utf8
Copies-entry n name node rest h node_copies rest_copies =
    Moves-bind copy_str (λ tag. copy_tagged (copy_node n) (copy_entries n) tag)
      (Copies-text (codes "entry") refl (omega arith))
      (Moves-then (copy_entry_head (codes "entry")) _ (Copies-copy_entry_head name h) (
        Moves-then (copy_node n) _ node_copies (
          Moves-then (expect_str (codes ")")) (copy_entries n)
            (Copies-expect_str (codes ")") refl (omega arith)) rest_copies)))
