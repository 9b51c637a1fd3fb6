-- ===== src/ContentPath/Check.antt =====
-- The checks of a claimed store path, of crates/server/src/store_path.rs.
use kubernix.Prelude.{
  ℕ, ◌+◌, ◌*◌, ◌-◌, ◌++◌, ◌∷◌, [], List, Option, none, some, Bytes, codes, leb, eqb, ◌&&◌, not,
  if◌then◌else◌, strip_prefix,
}
use kubernix.Prelude.Eq.{◌==◌, nat_eq, list_eq}
use kubernix.Prelude.Outcome.{Outcome, ok, err, ok_or, ◌>>=◌}
use kubernix.StorePath.{StorePath, store_path_eq}
use kubernix.StorePath
use kubernix.ContentPath.{
  CaMethod, text, flat, recursive, hex, store_path_for, ContentAddress, Rejection, hash_mismatch,
  wrong_path, unverifiable,
}
use kubernix.ContentPath.Token.{regular_file_contents}

-- A digit of `from_str_radix(…, 16)`.
unfoldable pub hex_digit : ℕ → Option ℕ
hex_digit c =
    if leb b'0' c && leb c b'9'
    then some (c - b'0')
    else if leb b'a' c && leb c b'f'
    then some (c - b'a' + 10)
    else if leb b'A' c && leb c b'F'
    then some (c - b'A' + 10)
    else none

-- `u8::from_str_radix(…, 16)` of two bytes: a `+` in front is a sign.
unfoldable pub hex_byte : ℕ → ℕ → Option ℕ
hex_byte a b = elim (hex_digit a) [
  | none ↦ if eqb a b'+' then hex_digit b else none
  | some h ↦ elim (hex_digit b) [ none ↦ none | some l ↦ some (h * 16 + l) ]
]

unfoldable pub unhex : Bytes → Option Bytes
unhex [] = some []
unhex (a ∷ []) = none
unhex (a ∷ (b ∷ s)) = elim (hex_byte a b) [
  | none ↦ none
  | some byte ↦ elim (unhex s) [ none ↦ none | some bytes ↦ some (byte ∷ bytes) ]
]

-- The method and the algorithm that `Output.algo` names.
unfoldable pub parse_algo : Bytes → CaMethod × Bytes
parse_algo algo = elim (strip_prefix algo (codes "r:")) [
  | some rest ↦ (recursive, rest)
  | none ↦ (flat, algo)
]

unfoldable pub output_path_name : Bytes → Bytes → Bytes
output_path_name drv_name output_name =
    if output_name == codes "out" then drv_name else drv_name ++ (codes "-" ++ output_name)

unfoldable pub verify_fixed_output :
    (Bytes → Bytes) → Bytes → Bytes → Bytes → Bytes → Bytes → Option StorePath
verify_fixed_output sha256 dir drv_name output_name algo hash_hex =
    let (method, hash_algo) = parse_algo algo in
    elim (unhex hash_hex) [
      | none ↦ none
      | some hash ↦
          store_path_for sha256 dir (output_path_name drv_name output_name) method hash_algo hash []
    ]

-- What is hashed: the NAR as a whole, or the single file inside it.
unfoldable pub hashed_contents : CaMethod → Bytes → Option Bytes
hashed_contents recursive nar = some nar
hashed_contents text nar = regular_file_contents nar
hashed_contents flat nar = regular_file_contents nar

-- The comparison of the hashes, and of the paths.
unfoldable pub compare_hash : ContentAddress → Bytes → Outcome Rejection (Unit {0})
compare_hash ca actual =
    if not (actual == ca.hash) then err (hash_mismatch (hex ca.hash) (hex actual)) else ok tt

unfoldable pub compare_path : StorePath → StorePath → Outcome Rejection (Unit {0})
compare_path path computed =
    if not (computed == path) then err (wrong_path path.as_str computed.as_str) else ok tt

unfoldable pub verify :
    (Bytes → Bytes)
    → Bytes
    → StorePath
    → ContentAddress
    → List StorePath
    → Bytes
    → Outcome Rejection (Unit {0})
verify sha256 dir path ca references nar = do
  name ← ok_or (unverifiable (codes "not a store path")) (StorePath.name path)
  _ ←
      if not (ca.algo == codes "sha256")
      then err (unverifiable (codes "only sha256 is checked"))
      else ok tt
  contents ←
      ok_or (unverifiable (codes "not a single regular file")) (hashed_contents ca.method nar)
  _ ← compare_hash ca (sha256 contents)
  computed ←
      ok_or (unverifiable (codes "no path for this address"))
        (store_path_for sha256 dir name ca.method ca.algo (sha256 contents) references)
  compare_path path computed
