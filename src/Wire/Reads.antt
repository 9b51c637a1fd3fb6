-- ===== src/Wire/Reads.antt =====
-- When a method of `Reader` (crates/types/src/wire.rs) reads an encoding, and how encodings
-- compose. These rules carry every round trip through the wire format.
use kubernix.Prelude.{
  ℕ, zero, suc, ◌+◌, ◌-◌, ◌*◌, ◌/◌, ◌%◌, ◌^◌, ◌<◌, ◌≤◌, ◌≡◌, refl, sym, ap, ◌∙◌, List, [], ◌∷◌,
  ◌++◌, Bytes, length, length-append, drop, take-append, drop-append, drop-add, arith, append_assoc,
  replicate, length-replicate, append-nil, subst, All,
}
use native.Mathlib.Nat.{pow-suc}
use kubernix.Prelude.Outcome.{ok}
use kubernix.Utf8.{IsUtf8, from_utf8_lossy, from_utf8_lossy_valid}
use kubernix.Wire.{padding, to_le_bytes, from_le_bytes, u64_mod, field}
use kubernix.Wire.Reader
use kubernix.Wire.Reader.{Read, Truncated, ◌>>=◌, pure, slice}

-- A Rust buffer has at most `isize::MAX` bytes.
abbrev pub IsBuffer : Bytes → Type 0
IsBuffer bytes = length bytes < 2 ^ 63

-- What is still to be read.
pub record At (bytes : Bytes) (pos : ℕ) (rest : Bytes) : Type 0 where
  pub remaining : drop pos bytes ≡ rest
  pub position : pos + length rest ≡ length bytes

pub At-advance :
    (bytes : Bytes) (pos : ℕ) (xs ys : Bytes)
    → At bytes pos (xs ++ ys)
    → At bytes (pos + length xs) ys
At-advance bytes pos xs ys h = record {
  remaining = rw drop-add (rw h.remaining (drop-append xs ys));
  position = omega (arith, h.position, length-append xs ys);
}

pub At-start : (bytes : Bytes) → At bytes 0 bytes
At-start bytes = record { remaining = refl; position = omega arith }

-- From the front of `encoding`, whatever follows, `m` reads `a` and stops behind the encoding.
pub record Reads {E A : Type 0} (m : Read E A) (encoding : Bytes) (a : A) : Type 0 where
  pub at :
      (bytes : Bytes) (pos : ℕ) (rest : Bytes)
      → IsBuffer bytes
      → At bytes pos (encoding ++ rest)
      → m bytes pos ≡ ok (a, pos + length encoding)

module _ {E A B : Type 0} where
  pub Reads-bind :
      (m : Read E A) (f : A → Read E B) (front back : Bytes) (a : A) (b : B)
      → Reads m front a
      → Reads (f a) back b
      → Reads (m >>= f) (front ++ back) b
  Reads-bind m f front back a b hm hf = record {
    at = λ bytes pos rest small h.
        let h' : At bytes pos (front ++ (back ++ rest)) = rw append_assoc at h in
        rw (hm.at bytes pos (back ++ rest) small h', ◌>>=◌)
          (rw (hf.at bytes (pos + length front) rest small (At-advance bytes pos front _ h'))
            (ap (λ p. ok (b, p)) (omega (arith, length-append front back))));
  }

module _ {E A : Type 0} where
  pub Reads-pure : (a : A) → Reads {E = E} (pure a) [] a
  Reads-pure a = record { at = λ bytes pos rest small h. ap (λ p. ok (a, p)) (omega arith) }

module _ {E A B : Type 0} where
  -- `do x ← m; pure (g x)`
  pub Reads-map :
      (m : Read E A) (g : A → B) (encoding : Bytes) (a : A)
      → Reads m encoding a
      → Reads (m >>= λ x. pure (g x)) encoding (g a)
  Reads-map m g encoding a h = record {
    at = λ bytes pos rest small r. rw (h.at bytes pos rest small r, ◌>>=◌);
  }

-- Eight bytes hold every number below 2 ^ 64.
pub from_le_bytes-to_le_bytes : (n v : ℕ) → v < 256 ^ n → from_le_bytes (to_le_bytes n v) ≡ v
unfolding from_le_bytes to_le_bytes
from_le_bytes-to_le_bytes zero v h = omega arith
from_le_bytes-to_le_bytes (suc n) v h =
    let h' : v < 256 ^ n * 256 = rw (← pow-suc) h in
    omega (arith, from_le_bytes-to_le_bytes n (v / 256) (omega arith))

pub length-to_le_bytes : (n v : ℕ) → length (to_le_bytes n v) ≡ n
unfolding to_le_bytes
length-to_le_bytes zero v = refl
length-to_le_bytes (suc n) v = omega (arith, length-to_le_bytes n (v / 256))

-- The slice of a read that stays inside.
pub slice-At :
    (bytes : Bytes) (pos : ℕ) (xs ys : Bytes)
    → At bytes pos (xs ++ ys)
    → slice bytes pos (pos + length xs) ≡ xs
unfolding slice
slice-At bytes pos xs ys h =
    rw h.remaining
      (let e : pos + length xs - pos ≡ length xs = omega arith in rw e (take-append xs ys))

-- A read of the next bytes stays inside the buffer and does not wrap.
record Inside (bytes : Bytes) (pos len : ℕ) : Type 0 where
  no_wrap : (pos + len) % u64_mod ≡ pos + len
  fits : pos + len ≤ length bytes

At-Inside :
    (bytes : Bytes) (pos : ℕ) (xs ys : Bytes)
    → IsBuffer bytes
    → At bytes pos (xs ++ ys)
    → Inside bytes pos (length xs)
At-Inside bytes pos xs ys small h =
    let whole = length-append xs ys in
    record { no_wrap = omega (arith, h.position); fits = omega (arith, h.position) }

pub Reads-u64 : (v : ℕ) → v < u64_mod → Reads Reader.u64 (to_le_bytes 8 v) v
unfolding Reader.u64
Reads-u64 v h = record {
  at = λ bytes pos rest small a. ground (
    arith,
    At-Inside bytes pos (to_le_bytes 8 v) rest small a,
    slice-At bytes pos (to_le_bytes 8 v) rest a,
    length-to_le_bytes 8 v,
    from_le_bytes-to_le_bytes 8 v,
  );
}

-- `bytes_of` passes over the padding too.
pub Reads-bytes_of :
    (value : Bytes)
    → Reads (Reader.bytes_of (length value)) (value ++ replicate (padding (length value)) 0) value
unfolding Reader.bytes_of
Reads-bytes_of value = record {
  at = λ bytes pos rest small a.
      let zeros = replicate (padding (length value)) 0 in
      let a' : At bytes pos (value ++ (zeros ++ rest)) = rw append_assoc at a in
      let len = length (value ++ zeros) in
      let whole : (pos + len) % u64_mod ≡ pos + len =
        (At-Inside bytes pos (value ++ zeros) rest small a).no_wrap in
      ground (
        arith,
        whole,
        At-Inside bytes pos value (zeros ++ rest) small a',
        slice-At bytes pos value (zeros ++ rest) a',
        length-append value zeros,
        length-replicate (padding (length value)) (let z : ℕ = 0 in z),
      );
}

pub Reads-string :
    (value : Bytes)
    → IsUtf8 value
    → length value < u64_mod
    → Reads Reader.string (field value) value
unfolding Reader.string field
Reads-string value utf8 fits =
    let padded = value ++ replicate (padding (length value)) 0 in
    Reads-bind Reader.u64 _ (to_le_bytes 8 (length value)) padded (length value) value
      (Reads-u64 (length value) fits)
      (subst
        (λ s. Reads (Reader.bytes_of (length value) >>= λ v. pure (from_utf8_lossy v)) padded s)
        (from_utf8_lossy_valid value utf8)
        (Reads-map (Reader.bytes_of (length value)) from_utf8_lossy padded value
          (Reads-bytes_of value)))

-- A text that the wire carries as it is.
pub record IsWireText (value : Bytes) : Type 0 where
  pub utf8 : IsUtf8 value
  pub fits : length value < u64_mod

-- The encodings of the texts of a list, one after the other.
unfoldable pub text_fields : List Bytes → Bytes
text_fields [] = []
text_fields (value ∷ values) = field value ++ text_fields values

pub Reads-string_loop :
    (values : List Bytes)
    → All IsWireText values
    → Reads (Reader.string_loop (length values)) (text_fields values) values
unfolding Reader.string_loop text_fields
Reads-string_loop [] _ = Reads-pure []
Reads-string_loop (value ∷ values) (h, hs) =
    Reads-bind Reader.string _ (field value) (text_fields values) value (value ∷ values)
      (Reads-string value h.utf8 h.fits)
      (Reads-map (Reader.string_loop (length values)) (λ rest. value ∷ rest) _ values
        (Reads-string_loop values hs))

pub Reads-strings :
    (values : List Bytes)
    → All IsWireText values
    → length values < u64_mod
    → Reads Reader.strings (to_le_bytes 8 (length values) ++ text_fields values) values
unfolding Reader.strings
Reads-strings values h fits =
    Reads-bind Reader.u64 _ _ _ (length values) values (Reads-u64 (length values) fits)
      (Reads-string_loop values h)

module _ {E A : Type 0} (m : Read E A) (encoding : Bytes) (a : A) (r : Reads m encoding a) where
  -- A read from the front of a buffer.
  pub Reads-start :
      (rest : Bytes)
      → IsBuffer (encoding ++ rest)
      → m (encoding ++ rest) 0 ≡ ok (a, length encoding)
  Reads-start rest small =
      r.at (encoding ++ rest) 0 rest small (At-start (encoding ++ rest))
      ∙ ap (λ p. ok (a, p)) (omega arith)

  pub Reads-whole :
      (bytes : Bytes) → bytes ≡ encoding → IsBuffer bytes → m bytes 0 ≡ ok (a, length bytes)
  Reads-whole bytes e small =
      let e' : encoding ++ [] ≡ bytes = append-nil encoding ∙ sym e in
      let small' : IsBuffer (encoding ++ []) = rw e' small in
      rw e (rw append-nil at (Reads-start [] small'))
