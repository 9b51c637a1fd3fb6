-- ===== src/Wire/RoundTrip.antt =====
-- What the writers of crates/types/src/wire.rs append, `Reader` reads back, field by field.
use mathlib.Core.List.{foldl}
use kubernix.Prelude.{
  ℕ, ◌%◌, ◌<◌, ◌≡◌, refl, List, [], ◌∷◌, ◌++◌, Bytes, length, All, arith, append_assoc, append-nil,
  replicate,
}
use kubernix.Prelude.Outcome.{ok}
use kubernix.Wire.{padding, to_le_bytes, write_u64, write_bytes, u64_mod, field}
use kubernix.Wire.Reader
use kubernix.Wire.Reader.{Read, Truncated, ◌>>=◌, pure}
use kubernix.Wire.Reads.{
  IsBuffer, Reads, Reads-bind, Reads-map, Reads-pure, Reads-u64, Reads-bytes_of, Reads-whole,
}

-- A field is a number or a byte string.
pub data Field : Type 0 where
  word : ℕ → Field
  text : Bytes → Field

abbrev pub Fits : Field → Type 0
Fits (word v) = v < u64_mod
Fits (text value) = length value < u64_mod

abbrev write_field : Bytes → Field → Bytes
write_field out (word v) = write_u64 out v
write_field out (text value) = write_bytes out value

abbrev pub write_fields : Bytes → List Field → Bytes
write_fields = foldl write_field

-- Reads fields of the kinds that the list has, whatever their values.
abbrev read_field : Field → Read Truncated Field
read_field (word _) = do v ← Reader.u64; pure (word v)
read_field (text _) = do len ← Reader.u64; value ← Reader.bytes_of len; pure (text value)

abbrev pub read_fields : List Field → Read Truncated (List Field)
read_fields [] = pure []
read_fields (f ∷ fs) = do v ← read_field f; vs ← read_fields fs; pure (v ∷ vs)

abbrev encode_field : Field → Bytes
encode_field (word v) = to_le_bytes 8 v
encode_field (text value) = field value

abbrev encode_fields : List Field → Bytes
encode_fields [] = []
encode_fields (f ∷ fs) = encode_field f ++ encode_fields fs

write_field-encode : (out : Bytes) (f : Field) → Fits f → write_field out f ≡ out ++ encode_field f
unfolding write_u64 write_bytes field
write_field-encode out (word v) h = refl
write_field-encode out (text value) h =
    let e : length value % u64_mod ≡ length value = omega arith in rw e (simp append_assoc)

write_fields-encode :
    (fs : List Field) (out : Bytes) → All Fits fs → write_fields out fs ≡ out ++ encode_fields fs
write_fields-encode [] out h = rw append-nil
write_fields-encode (f ∷ fs) out (h, hs) =
    rw (write_field-encode out f h)
      (rw (write_fields-encode fs (out ++ encode_field f) hs) (append_assoc out (encode_field f) _))

Reads-field : (f : Field) → Fits f → Reads (read_field f) (encode_field f) f
unfolding field
Reads-field (word v) h = Reads-map Reader.u64 word _ v (Reads-u64 v h)
Reads-field (text value) h =
    let padded = value ++ replicate (padding (length value)) 0 in
    Reads-bind Reader.u64 _ _ padded (length value) (text value) (Reads-u64 (length value) h)
      (Reads-map (Reader.bytes_of (length value)) text padded value (Reads-bytes_of value))

Reads-fields : (fs : List Field) → All Fits fs → Reads (read_fields fs) (encode_fields fs) fs
Reads-fields [] h = Reads-pure []
Reads-fields (f ∷ fs) (h, hs) =
    Reads-bind (read_field f) _ (encode_field f) _ f (f ∷ fs) (Reads-field f h)
      (Reads-map (read_fields fs) (λ vs. f ∷ vs) _ fs (Reads-fields fs hs))

-- Any sequence of numbers below 2 ^ 64 and byte strings that the writers put into one buffer is read
-- back by `Reader` exactly and in order, and the reader ends at the end of the buffer.
pub read_fields-write_fields :
    (fs : List Field)
    → All Fits fs
    → IsBuffer (write_fields [] fs)
    → read_fields fs (write_fields [] fs) 0 ≡ ok (fs, length (write_fields [] fs))
read_fields-write_fields fs h small =
    Reads-whole (read_fields fs) (encode_fields fs) fs (Reads-fields fs h) (write_fields [] fs)
      (write_fields-encode fs [] h) small
