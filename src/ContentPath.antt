-- ===== src/ContentPath.antt =====
-- crates/server/src/store_path.rs: the store path of content, and the check of a claimed one. The
-- functions that call SHA-256 (the crate `sha2`) take it as their first argument.
pub mod Token
pub mod Hex
pub mod Check
pub mod Nar
pub mod Verify
pub mod Named
use Prim.Native.Nat.{bit_xor}
use kubernix.Prelude.{
  ℕ, zero, suc, ◌+◌, ◌*◌, ◌/◌, ◌%◌, ◌++◌, ◌∷◌, [], List, Option, none, some, Bytes, Bool, true,
  false, codes, length, eqb, ltb, leb, ◌&&◌, ◌||◌, not, if◌then◌else◌, replicate, strip_prefix,
  take, drop,
}
use kubernix.Prelude.Eq.{Eq, ◌==◌, nat_eq, list_eq}
use kubernix.Prelude.Indexed.{get_or, set}
use kubernix.Prelude.Outcome.{Outcome, ok, err, ok_or, ◌>>=◌}
use kubernix.StorePath.{StorePath, store_path_eq, to_full}
use kubernix.StorePath
use kubernix.Base32.{encode}

pub data CaMethod : Type 0 where
  text flat recursive : CaMethod

abbrev pub is_recursive : CaMethod → Bool
is_recursive text = false
is_recursive flat = false
is_recursive recursive = true

-- `out[i % new_size] ^= byte` for the bytes from index `i` on
unfoldable pub fold_bytes : ℕ → ℕ → Bytes → Bytes → Bytes
fold_bytes new_size i [] out = out
fold_bytes new_size i (byte ∷ hash) out =
    let at = i % new_size in
    fold_bytes new_size (i + 1) hash (set out at (bit_xor (get_or out at 0) byte))

unfoldable pub compress_hash : Bytes → ℕ → Bytes
compress_hash hash new_size = fold_bytes new_size 0 hash (replicate new_size 0)

abbrev pub hex_digits : Bytes
hex_digits = codes "0123456789abcdef"

-- `format!("{b:02x}")` of each byte
unfoldable pub hex : Bytes → Bytes
hex [] = []
hex (b ∷ bytes) = get_or hex_digits (b / 16) 0 ∷ get_or hex_digits (b % 16) 0 ∷ hex bytes

unfoldable pub make_store_path : (Bytes → Bytes) → Bytes → Bytes → Bytes → Bytes → Bytes
make_store_path sha256 dir ty hash_hex name =
    let s = ty ++ (codes ":" ++ (hash_hex ++ (codes ":" ++ (dir ++ (codes ":" ++ name))))) in
    encode (compress_hash (sha256 s) 20) ++ (codes "-" ++ name)

unfoldable pub push_references : Bytes → Bytes → List StorePath → Bytes
push_references dir ty [] = ty
push_references dir ty (r ∷ rs) = push_references dir (ty ++ (codes ":" ++ to_full r dir)) rs

unfoldable pub make_type : Bytes → Bytes → List StorePath → Bool → Bytes
make_type dir base references self_ref =
    let ty = push_references dir base references in if self_ref then ty ++ codes ":self" else ty

-- The arm of `Text`, and of `Recursive` with sha256.
unfoldable pub short_form :
    (Bytes → Bytes) → Bytes → Bytes → Bytes → Bytes → List StorePath → StorePath
short_form sha256 dir base name hash references = record {
  as_str =
      make_store_path sha256 dir (make_type dir base references false) (codes "sha256:" ++ hex hash)
        name;
}

-- The text that the long form hashes first.
unfoldable pub fixed_output : CaMethod → Bytes → Bytes → Bytes
fixed_output method hash_algo hash =
    let prefix = if is_recursive method then codes "r:" else [] in
    codes "fixed:out:" ++ (prefix ++ (hash_algo ++ (codes ":" ++ (hex hash ++ codes ":"))))

unfoldable pub long_form :
    (Bytes → Bytes) → Bytes → Bytes → CaMethod → Bytes → Bytes → List StorePath → Option StorePath
long_form sha256 dir name method hash_algo hash (r ∷ rs) = none
long_form sha256 dir name method hash_algo hash [] = some (record {
  as_str =
      make_store_path sha256 dir (codes "output:out")
        (codes "sha256:" ++ hex (sha256 (fixed_output method hash_algo hash))) name;
})

unfoldable pub store_path_for :
    (Bytes → Bytes) → Bytes → Bytes → CaMethod → Bytes → Bytes → List StorePath → Option StorePath
store_path_for sha256 dir name text hash_algo hash references =
    if not (hash_algo == codes "sha256")
    then none
    else some (short_form sha256 dir (codes "text") name hash references)
store_path_for sha256 dir name flat hash_algo hash references =
    long_form sha256 dir name flat hash_algo hash references
store_path_for sha256 dir name recursive hash_algo hash references =
    if hash_algo == codes "sha256"
    then some (short_form sha256 dir (codes "source") name hash references)
    else long_form sha256 dir name recursive hash_algo hash references

pub record ContentAddress : Type 0 where
  pub method : CaMethod
  pub algo : Bytes
  pub hash : Bytes

pub data Rejection : Type 0 where
  hash_mismatch wrong_path : Bytes → Bytes → Rejection
  unverifiable : Bytes → Rejection
