-- ===== src/ContentPath/Hex.antt =====
-- Hexadecimal texts, of crates/server/src/store_path.rs.
use kubernix.Prelude.{ℕ, zero, suc, ◌/◌, ◌%◌, ◌<◌, ◌≡◌, refl, ap, [], ◌∷◌, some, Bytes, All, arith}
use kubernix.Prelude.Indexed.{get_or}
use kubernix.ContentPath.{hex, hex_digits}
use kubernix.ContentPath.Check.{hex_digit, hex_byte, unhex}

hex_digit-get_or : (d : ℕ) → d < 16 → hex_digit (get_or hex_digits d 0) ≡ some d
unfolding hex_digit
hex_digit-get_or zero h = refl
hex_digit-get_or (suc zero) h = refl
hex_digit-get_or (suc (suc zero)) h = refl
hex_digit-get_or (suc (suc (suc zero))) h = refl
hex_digit-get_or (suc (suc (suc (suc zero)))) h = refl
hex_digit-get_or (suc (suc (suc (suc (suc zero))))) h = refl
hex_digit-get_or (suc (suc (suc (suc (suc (suc zero)))))) h = refl
hex_digit-get_or (suc (suc (suc (suc (suc (suc (suc zero))))))) h = refl
hex_digit-get_or (suc (suc (suc (suc (suc (suc (suc (suc zero)))))))) h = refl
hex_digit-get_or (suc (suc (suc (suc (suc (suc (suc (suc (suc zero))))))))) h = refl
hex_digit-get_or (suc (suc (suc (suc (suc (suc (suc (suc (suc (suc zero)))))))))) h = refl
hex_digit-get_or (suc (suc (suc (suc (suc (suc (suc (suc (suc (suc (suc zero))))))))))) h = refl
hex_digit-get_or (suc (suc (suc (suc (suc (suc (suc (suc (suc (suc (suc (suc zero)))))))))))) h =
    refl
hex_digit-get_or (suc (suc (suc (suc (suc (suc (suc (suc (suc (suc (suc (suc (suc zero)))))))))))))
      h =
    refl
hex_digit-get_or
      (suc (suc (suc (suc (suc (suc (suc (suc (suc (suc (suc (suc (suc (suc zero)))))))))))))) h =
    refl
hex_digit-get_or
      (suc (suc (suc (suc (suc (suc (suc (suc (suc (suc (suc (suc (suc (suc (suc zero)))))))))))))))
      h =
    refl
hex_digit-get_or
      (suc
        (suc (suc (suc (suc (suc (suc (suc (suc (suc (suc (suc (suc (suc (suc (suc d))))))))))))))))
      h =
    absurd (omega (arith, h))

hex_byte-digits :
    (b : ℕ)
    → b < 256
    → hex_byte (get_or hex_digits (b / 16) 0) (get_or hex_digits (b % 16) 0) ≡ some b
unfolding hex_byte
hex_byte-digits b h =
    rw (hex_digit-get_or (b / 16) (omega arith), hex_byte)
      (rw (hex_digit-get_or (b % 16) (omega arith)) (ap some (omega arith)))

-- `unhex` reads back what `hex` prints of any bytes.
pub unhex-hex : (bytes : Bytes) → All (λ b. b < 256) bytes → unhex (hex bytes) ≡ some bytes
unfolding unhex hex
unhex-hex [] h = refl
unhex-hex (b ∷ bytes) (h, hs) = rw (hex_byte-digits b h, unhex) (rw (unhex-hex bytes hs) refl)
