-- ===== src/ContentPath/Token.antt =====
-- `read_token` and `regular_file_contents` of crates/server/src/store_path.rs. `at` stays within
-- eight bytes of the end of the buffer, which is shorter than 2 ^ 63 bytes, so that of the additions
-- only `checked_add` can overflow.
use kubernix.Prelude.{ℕ, ◌+◌, Option, none, some, Bytes, codes, length, ltb, leb, if◌then◌else◌}
use kubernix.Prelude.Eq.{◌==◌, nat_eq, list_eq}
use kubernix.Wire.{from_le_bytes, padding, u64_mod}
use kubernix.Wire.Reader.{slice}

-- A function that takes `nar` and `&mut at` and returns an `Option`.
abbrev pub Scan : Type 0 → Type 0
Scan A = Bytes → ℕ → Option (A × ℕ)

infixl 5 ◌>>=◌
abbrev pub ◌>>=◌ : {A B : Type 0} → Scan A → (A → Scan B) → Scan B
◌>>=◌ m f nar at = elim (m nar at) [ none ↦ none | some (a, at') ↦ f a nar at' ]

abbrev pub pure : {A : Type 0} → A → Scan A
pure a nar at = some (a, at)

unfoldable pub read_token : Scan Bytes
unfolding slice
read_token nar at =
    if ltb (length nar) (at + 8)
    then none
    else let len = from_le_bytes (slice nar at (at + 8)) in
      let start = at + 8 in
      let end = start + len in
      if leb u64_mod end
      then none
      else if ltb (length nar) end
      then none
      else some (slice nar start end, end + padding len)

-- `if read_token(nar, &mut at)? != token { return None; }`
unfoldable pub expect : Bytes → Scan (Unit {0})
expect token nar at = elim (read_token nar at) [
  | none ↦ none
  | some (t, at') ↦ if t == token then some (tt, at') else none
]

-- The tokens from `field` to the one behind `executable` and its empty string.
unfoldable pub contents_field : Scan (Unit {0})
contents_field nar at = elim (read_token nar at) [
  | none ↦ none
  | some (field, at') ↦
      if field == codes "executable"
      then (do _ ← read_token; expect (codes "contents")) nar at'
      else if field == codes "contents"
      then some (tt, at')
      else none
]

unfoldable pub regular_file : Scan Bytes
regular_file = do
  _ ← expect (codes "nix-archive-1")
  _ ← expect (codes "(")
  _ ← expect (codes "type")
  _ ← expect (codes "regular")
  _ ← contents_field
  contents ← read_token
  _ ← expect (codes ")")
  pure contents

unfoldable pub regular_file_contents : Bytes → Option Bytes
regular_file_contents nar = elim (regular_file nar 0) [ none ↦ none | some (c, at) ↦ some c ]
