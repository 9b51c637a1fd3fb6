-- ===== src/Wire/Reader.antt =====
-- `Reader` of crates/types/src/wire.rs. The buffer stays as it is, so a method is a function of the
-- buffer and of `pos`, and returns the new `pos`. A method that fails leaves `pos` where its error
-- says. A slice whose start lies behind its end panics.
use kubernix.Prelude.{
  ℕ, zero, suc, ◌+◌, ◌-◌, ◌%◌, List, [], ◌∷◌, Bytes, length, take, drop, ltb, if◌then◌else◌,
}
use kubernix.Prelude.Outcome.{Outcome, ok, err, panic}
use kubernix.Utf8.{from_utf8_lossy}
use kubernix.Wire.{u64_mod, padding, from_le_bytes}

pub record Truncated : Type 0 where
  pub at : ℕ

abbrev pub Read : Type 0 → Type 0 → Type 0
Read E A = Bytes → ℕ → Outcome E (A × ℕ)

infixl 5 ◌>>=◌
abbrev pub ◌>>=◌ : {E A B : Type 0} → Read E A → (A → Read E B) → Read E B
◌>>=◌ m f bytes pos = elim (m bytes pos) [
  | ok (a, pos') ↦ f a bytes pos'
  | err e ↦ err e
  | panic ↦ panic
]

abbrev pub pure : {E A : Type 0} → A → Read E A
pure a bytes pos = ok (a, pos)

-- `&bytes[start..end]`, where the caller has checked `end`
unfoldable pub slice : Bytes → ℕ → ℕ → Bytes
slice bytes start end = take (end - start) (drop start bytes)

unfoldable pub u64 : Read Truncated ℕ
unfolding slice
u64 bytes pos =
    let end = (pos + 8) % u64_mod in
    if ltb (length bytes) end
    then err (record { at = pos })
    else if ltb end pos
    then panic
    else ok (from_le_bytes (slice bytes pos end), end)

-- `Reader::bytes`
unfoldable pub bytes_of : ℕ → Read Truncated Bytes
unfolding slice
bytes_of len bytes pos =
    let end = (pos + len) % u64_mod in
    if ltb (length bytes) end
    then err (record { at = pos })
    else if ltb end pos
    then panic
    else ok (slice bytes pos end, (end + padding len) % u64_mod)

unfoldable pub string : Read Truncated Bytes
string = do len ← u64; value ← bytes_of len; pure (from_utf8_lossy value)

-- `(0..count).map(|_| self.string()).collect()`: the first error ends the loop.
unfoldable pub string_loop : ℕ → Read Truncated (List Bytes)
string_loop zero = pure []
string_loop (suc count) = do s ← string; rest ← string_loop count; pure (s ∷ rest)

unfoldable pub strings : Read Truncated (List Bytes)
strings = do count ← u64; string_loop count
