-- ===== src/NarCopy/Copies.antt =====
-- What the copier of crates/daemon-protocol/src/nar.rs reads and writes at one field of an archive,
-- and how copies follow each other.
use kubernix.Prelude.{
  ℕ, ◌^◌, ◌<◌, ◌≡◌, refl, sym, ◌++◌, [], Bytes, length, replicate, arith, append_assoc, append-nil,
  length-append, take-append, drop-append, length-replicate, subst,
}
use kubernix.Prelude.Outcome.{ok}
use kubernix.Wire.{padding, to_le_bytes, u64_mod, field}
use kubernix.Wire.Reads.{from_le_bytes-to_le_bytes, length-to_le_bytes}
use kubernix.Utf8.{from_utf8_lossy}
use kubernix.NarCopy.{
  Copy, ◌>>=◌, pure, read_exact, write_all, read_wire_u64, allocate, read_wire_bytes,
  write_wire_u64, write_wire_bytes, copy_u64, copy_str, copy_padded,
}

-- From the front of `input`, whatever follows, `m` reads `a` and writes `output`.
pub record Moves {A : Type 0} (m : Copy A) (input output : Bytes) (a : A) : Type 0 where
  pub at : (rest : Bytes) → m (input ++ rest) ≡ ok (a, rest, output)

-- What is read is written as it stands.
abbrev pub Copies : {A : Type 0} → Copy A → Bytes → A → Type 0
Copies m bytes a = Moves m bytes bytes a

module _ {A B : Type 0} where
  pub Moves-bind :
      (m : Copy A) (f : A → Copy B) {i i' o o' : Bytes} {a : A} {b : B}
      → Moves m i o a
      → Moves (f a) i' o' b
      → Moves (m >>= f) (i ++ i') (o ++ o') b
  Moves-bind m f {i} {i'} hm hf = record {
    at = λ rest. rw append_assoc (rw (hm.at (i' ++ rest)) (rw (hf.at rest)));
  }

  -- What is read is not looked at.
  pub Moves-then :
      (m : Copy A) (n : Copy B) {i i' o o' : Bytes} {a : A} {b : B}
      → Moves m i o a
      → Moves n i' o' b
      → Moves (m >>= λ _. n) (i ++ i') (o ++ o') b
  Moves-then m n hm hn = Moves-bind m (λ _. n) hm hn

module _ {A : Type 0} where
  pub Moves-pure : (a : A) → Moves (pure a) [] [] a
  Moves-pure a = record { at = λ rest. refl }

  pub Moves-eq :
      {m : Copy A} {i i' o o' : Bytes} {a : A} → i ≡ i' → o ≡ o' → Moves m i o a → Moves m i' o' a
  Moves-eq {m} {i} {i'} {o} {o'} {a} p q h = record {
    at = λ rest. rw ((sym p), (sym q)) (h.at rest);
  }

Moves-read_exact : (bytes : Bytes) → Moves (read_exact (length bytes)) bytes [] bytes
unfolding read_exact
Moves-read_exact bytes = record {
  at = λ rest.
      rw (take-append bytes rest, drop-append bytes rest)
        (ground (arith, length-append bytes rest));
}

Moves-write_all : (bytes : Bytes) → Moves (write_all bytes) [] bytes tt
unfolding write_all
Moves-write_all bytes = record { at = λ rest. refl }

Moves-read_wire_u64 : (v : ℕ) → v < u64_mod → Moves read_wire_u64 (to_le_bytes 8 v) [] v
unfolding read_wire_u64
Moves-read_wire_u64 v h = record {
  at = λ rest.
      let read = (Moves-read_exact (to_le_bytes 8 v)).at rest in
      let read' : read_exact 8 (to_le_bytes 8 v ++ rest) ≡ ok (to_le_bytes 8 v, rest, []) =
        subst (λ k. read_exact k (to_le_bytes 8 v ++ rest) ≡ ok (to_le_bytes 8 v, rest, []))
          (length-to_le_bytes 8 v) read in
      rw (read', from_le_bytes-to_le_bytes 8 v h);
}

Moves-write_wire_u64 : (v : ℕ) → Moves (write_wire_u64 v) [] (to_le_bytes 8 v) tt
unfolding write_wire_u64
Moves-write_wire_u64 v = Moves-write_all (to_le_bytes 8 v)

Moves-allocate : (len : ℕ) → len < 2 ^ 63 → Moves (allocate len) [] [] tt
unfolding allocate
Moves-allocate len h = record { at = λ rest. ground arith }

-- `n` bytes of padding.
Moves-skip : (n : ℕ) → Moves (read_exact n) (replicate n 0) [] (replicate n 0)
Moves-skip n =
    subst (λ k. Moves (read_exact k) (replicate n 0) [] (replicate n 0)) (length-replicate n 0)
      (Moves-read_exact (replicate n 0))

Moves-read_wire_bytes : (v : Bytes) → length v < 2 ^ 63 → Moves read_wire_bytes (field v) [] v
unfolding read_wire_bytes field
Moves-read_wire_bytes v h = Moves-eq (rw append-nil) refl (
    Moves-bind read_wire_u64 _ (Moves-read_wire_u64 (length v) (omega arith)) (
      Moves-then (allocate (length v)) _ (Moves-allocate (length v) h) (
        Moves-bind (read_exact (length v)) _ (Moves-read_exact v) (
          Moves-then (read_exact (padding (length v))) _ (Moves-skip (padding (length v)))
            (Moves-pure v)))))

Moves-write_wire_bytes : (v : Bytes) → Moves (write_wire_bytes v) [] (field v) tt
unfolding write_wire_bytes field
Moves-write_wire_bytes v =
    Moves-then (write_wire_u64 (length v)) _ (Moves-write_wire_u64 (length v))
      (Moves-then (write_all v) _ (Moves-write_all v) (Moves-write_all _))

pub Copies-copy_u64 : (v : ℕ) → v < u64_mod → Copies copy_u64 (to_le_bytes 8 v) v
unfolding copy_u64
Copies-copy_u64 v h = Moves-eq (rw append-nil) (rw append-nil) (
    Moves-bind read_wire_u64 (λ x. do _ ← write_wire_u64 x; pure x) (Moves-read_wire_u64 v h)
      (Moves-then (write_wire_u64 v) _ (Moves-write_wire_u64 v) (Moves-pure v)))

pub Copies-copy_str :
    (v : Bytes) → length v < 2 ^ 63 → Copies copy_str (field v) (from_utf8_lossy v)
unfolding copy_str
Copies-copy_str v h = Moves-eq (rw append-nil) (rw append-nil) (
    Moves-bind read_wire_bytes (λ x. do _ ← write_wire_bytes x; pure (from_utf8_lossy x))
      (Moves-read_wire_bytes v h)
      (Moves-then (write_wire_bytes v) _ (Moves-write_wire_bytes v)
        (Moves-pure (from_utf8_lossy v))))

pub Copies-copy_padded :
    (v : Bytes) → Copies (copy_padded (length v)) (v ++ replicate (padding (length v)) 0) tt
unfolding copy_padded
Copies-copy_padded v = Moves-eq (rw append-nil) refl (
    Moves-bind (read_exact (length v)) _ (Moves-read_exact v) (
      Moves-then (write_all v) _ (Moves-write_all v) (
        Moves-then (read_exact (padding (length v))) _ (Moves-skip (padding (length v)))
          (Moves-write_all _))))
