-- ===== src/Examples/Paths.antt =====
-- Store paths and names (crates/types/src, crates/signing/src and crates/server/src/store_path.rs).
use kubernix.Prelude.{
  Without, [], ◌∷◌, ◌++◌, Bytes, codes, refl, arith, some, true, ◌≡◌, ◌↔◌, length, replicate,
  ltb→lt,
}
use kubernix.Prelude.Outcome.{ok}
use kubernix.TenantId.{from_wire}
use kubernix.TenantId.Safe.{IsIdText, from_wire_iff}
use kubernix.StorePath.{StorePath}
use kubernix.Base32.{encode, decode, decode_loop, decode_round, encode_loop, encoded_len, window}
use kubernix.Wire.{field, to_le_bytes, padding}
use kubernix.Wire.Reads.{IsBuffer}
use kubernix.ContentPath.{recursive, ContentAddress, store_path_for, short_form}
use kubernix.ContentPath.Check.{verify}
use kubernix.ContentPath.Verify.{IsContentOf, verify_iff}
use kubernix.ContentPath.Token.{regular_file_contents}
use kubernix.ContentPath.Nar.{nar_of, regular_file_contents-nar_of}
use kubernix.ContentPath.Named.{IsNamed, store_path_for-IsNamed}
use kubernix.Examples.Data.{acme, hello}

from_wire_iff_example :
    (from_wire (codes "acme") ≡ some acme)
    ↔ ((acme.as_str ≡ codes "acme") × IsIdText (codes "acme"))
from_wire_iff_example = from_wire_iff (codes "acme") acme

abbrev two_bytes : Bytes
two_bytes = 255 ∷ 1 ∷ []

-- A stand-in for the hash function, of the length of SHA-256.
abbrev digest : Bytes → Bytes
digest s = replicate 32 (length s)

abbrev store_dir : Bytes
store_dir = codes "/nix/store"

abbrev address : ContentAddress
address = record { method = recursive; algo = codes "sha256"; hash = digest (codes "nar") }

verify_iff_example :
    (verify digest store_dir hello address [] (codes "nar") ≡ ok tt)
    ↔ IsContentOf digest store_dir hello address [] (codes "nar")
verify_iff_example = verify_iff digest store_dir hello address [] (codes "nar")

abbrev made : StorePath
made = short_form digest store_dir (codes "source") (codes "f.txt") (digest []) []

made_path :
    store_path_for digest store_dir (codes "f.txt") recursive (codes "sha256") (digest []) []
    ≡ some made
unfolding store_path_for
made_path = refl

no_slash : Without b'/' (codes "f.txt")
no_slash = (
  (λ e. omega (arith, e)),
  (
    (λ e. omega (arith, e)),
    ((λ e. omega (arith, e)), ((λ e. omega (arith, e)), ((λ e. omega (arith, e)), tt))),
  ),
)

store_path_for-IsNamed_example : IsNamed made (codes "f.txt")
store_path_for-IsNamed_example =
    store_path_for-IsNamed digest store_dir (codes "f.txt") recursive (codes "sha256") (digest [])
      [] made made_path (omega arith) no_slash

small_nar : IsBuffer (nar_of true (codes "hello") ++ codes "junk")
unfolding field to_le_bytes padding
small_nar = ltb→lt _ _ refl

regular_file_contents-nar_of_example :
    regular_file_contents (nar_of true (codes "hello") ++ codes "junk") ≡ some (codes "hello")
regular_file_contents-nar_of_example =
    regular_file_contents-nar_of true (codes "hello") (codes "junk") small_nar

-- `decode` inverts `encode` on these bytes.
decode-encode_two : decode (encode two_bytes) 2 ≡ some two_bytes
unfolding decode decode_loop decode_round encode encode_loop encoded_len window
decode-encode_two = refl
