-- ===== src/ContentPath/Nar.antt =====
-- The archive of a single regular file, as `regular_file_contents` of crates/server/src/store_path.rs
-- reads it.
use kubernix.Prelude.{
  ℕ, ◌+◌, ◌<◌, ◌≡◌, refl, ap, ◌∙◌, [], ◌++◌, some, Bytes, Bool, true, false, codes, length, arith,
  append_assoc, replicate, length-append, length-replicate,
}
use kubernix.Prelude.Eq.{nat_eq, list_eq, ==-refl}
use kubernix.Wire.{field, to_le_bytes, from_le_bytes, padding, u64_mod}
use kubernix.Wire.Reader.{slice}
use kubernix.Wire.Reads.{
  At, At-advance, At-start, IsBuffer, from_le_bytes-to_le_bytes, length-to_le_bytes, slice-At,
}
use kubernix.ContentPath.Token.{
  Scan, ◌>>=◌, pure, read_token, expect, contents_field, regular_file, regular_file_contents,
}

-- From the front of `encoding`, whatever follows, `m` reads `a` and stops behind the encoding.
record Scans {A : Type 0} (m : Scan A) (encoding : Bytes) (a : A) : Type 0 where
  at :
      (nar : Bytes) (pos : ℕ) (rest : Bytes)
      → IsBuffer nar
      → At nar pos (encoding ++ rest)
      → m nar pos ≡ some (a, pos + length encoding)

Scans-bind :
    {A B : Type 0} (m : Scan A) (f : A → Scan B) (front back : Bytes) (a : A) (b : B)
    → Scans m front a
    → Scans (f a) back b
    → Scans (m >>= f) (front ++ back) b
Scans-bind m f front back a b hm hf = record {
  at = λ nar pos rest small h.
      let h' : At nar pos (front ++ (back ++ rest)) = rw append_assoc at h in
      rw (hm.at nar pos (back ++ rest) small h', ◌>>=◌)
        (rw (hf.at nar (pos + length front) rest small (At-advance nar pos front _ h'))
          (ap (λ p. some (b, p)) (omega (arith, length-append front back))));
}

Scans-pure : {A : Type 0} (a : A) → Scans (pure a) [] a
Scans-pure a = record { at = λ nar pos rest small h. ap (λ p. some (a, p)) (omega arith) }

token_length :
    (nar : Bytes) (pos : ℕ) (value rest : Bytes)
    → At nar pos (field value ++ rest)
    → length value < u64_mod
    → from_le_bytes (slice nar pos (pos + 8)) ≡ length value
unfolding field
token_length nar pos value rest a small =
    let tail = value ++ replicate (padding (length value)) 0 in
    let a' : At nar pos (to_le_bytes 8 (length value) ++ (tail ++ rest)) = rw append_assoc at a in
    let s = slice-At nar pos (to_le_bytes 8 (length value)) (tail ++ rest) a' in
    rw (rw length-to_le_bytes at s) (from_le_bytes-to_le_bytes 8 (length value) small)

token_value :
    (nar : Bytes) (pos : ℕ) (value rest : Bytes)
    → At nar pos (field value ++ rest)
    → slice nar (pos + 8) (pos + 8 + length value) ≡ value
unfolding field
token_value nar pos value rest a =
    let zeros = replicate (padding (length value)) 0 in
    let a' : At nar pos (to_le_bytes 8 (length value) ++ ((value ++ zeros) ++ rest)) =
      rw append_assoc at a in
    let b = rw length-to_le_bytes at (At-advance nar pos (to_le_bytes 8 (length value)) _ a') in
    slice-At nar (pos + 8) value (zeros ++ rest) (rw append_assoc at b)

length-field : (value : Bytes) → length (field value) ≡ 8 + length value + padding (length value)
unfolding field
length-field value =
    let zeros : Bytes = replicate (padding (length value)) 0 in
    omega (
      arith,
      length-append (to_le_bytes 8 (length value)) (value ++ zeros),
      length-append value zeros,
      length-to_le_bytes 8 (length value),
      length-replicate (padding (length value)) (let z : ℕ = 0 in z),
    )

Scans-read_token : (value : Bytes) → Scans read_token (field value) value
unfolding read_token
Scans-read_token value = record {
  at = λ nar pos rest small a.
      let whole = length-append (field value) rest in
      let inside = a.position in
      let size = length-field value in
      let fits : length value < u64_mod = omega arith in
      let len = token_length nar pos value rest a fits in
      let got = token_value nar pos value rest a in ground arith;
}

Scans-expect : (token : Bytes) → Scans (expect token) (field token) tt
unfolding expect
Scans-expect token = record {
  at = λ nar pos rest small a.
      rw (Scans.at (Scans-read_token token) nar pos rest small a, expect) (rw (==-refl token));
}

-- What stands between `regular` and the contents.
abbrev pub mark : Bool → Bytes
mark true = field (codes "executable") ++ (field [] ++ field (codes "contents"))
mark false = field (codes "contents")

-- The archive of a single regular file, as `nix-store --dump` writes it.
abbrev pub nar_of : Bool → Bytes → Bytes
nar_of executable contents =
    field (codes "nix-archive-1")
    ++ (field (codes "(")
        ++ (field (codes "type")
            ++ (field (codes "regular")
                ++ (mark executable ++ (field contents ++ (field (codes ")") ++ []))))))

Scans-contents_field_plain : Scans contents_field (field (codes "contents")) tt
unfolding contents_field
Scans-contents_field_plain = record {
  at = λ nar pos rest small a.
      rw (Scans.at (Scans-read_token (codes "contents")) nar pos rest small a, contents_field) refl;
}

executable_scan :
    Scans (do _ ← read_token; expect (codes "contents")) (field [] ++ field (codes "contents")) tt
executable_scan =
    Scans-bind read_token (λ _. expect (codes "contents")) (field []) _ [] tt (Scans-read_token [])
      (Scans-expect _)

Scans-contents_field : (executable : Bool) → Scans contents_field (mark executable) tt
unfolding contents_field
Scans-contents_field false = Scans-contents_field_plain
Scans-contents_field true = record {
  at = λ nar pos rest small a.
      let back = field [] ++ field (codes "contents") in
      let a' : At nar pos (field (codes "executable") ++ (back ++ rest)) = rw append_assoc at a in
      rw
        (
          Scans.at (Scans-read_token (codes "executable")) nar pos (back ++ rest) small a',
          contents_field,
        )
        (Scans.at executable_scan nar (pos + length (field (codes "executable"))) rest small
            (At-advance nar pos (field (codes "executable")) _ a')
          ∙ ap (λ p. some (tt, p))
              (omega (arith, length-append (field (codes "executable")) back)));
}

Scans-regular_file :
    (executable : Bool) (contents : Bytes)
    → Scans regular_file (nar_of executable contents) contents
unfolding regular_file
Scans-regular_file executable contents =
    Scans-bind _ _ _ _ tt contents (Scans-expect (codes "nix-archive-1")) (
      Scans-bind _ _ _ _ tt contents (Scans-expect (codes "(")) (
        Scans-bind _ _ _ _ tt contents (Scans-expect (codes "type")) (
          Scans-bind _ _ _ _ tt contents (Scans-expect (codes "regular")) (
            Scans-bind _ _ _ _ tt contents (Scans-contents_field executable) (
              Scans-bind _ _ _ _ contents contents (Scans-read_token contents) (
                Scans-bind _ _ _ _ tt contents (Scans-expect (codes ")"))
                  (Scans-pure contents)))))))

-- Of the archive of a regular file, executable or not, `regular_file_contents` returns the file,
-- whatever bytes follow the archive in the buffer.
pub regular_file_contents-nar_of :
    (executable : Bool) (contents rest : Bytes)
    → IsBuffer (nar_of executable contents ++ rest)
    → regular_file_contents (nar_of executable contents ++ rest) ≡ some contents
unfolding regular_file_contents
regular_file_contents-nar_of executable contents rest small =
    let nar = nar_of executable contents ++ rest in
    rw
      (
        Scans.at (Scans-regular_file executable contents) nar 0 rest small (At-start nar),
        regular_file_contents,
      )
      refl
