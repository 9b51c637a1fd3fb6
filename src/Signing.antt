-- ===== src/Signing.antt =====
-- crates/signing/src/lib.rs: the fingerprint of a path, and its signature with a local key. Ed25519 and
-- base64 are other packages, and parameters.
pub mod Covers
use kubernix.Prelude.{
  ℕ, ◌++◌, ◌∷◌, [], map, List, Bytes, codes, decimal, join, length, eqb, not, if◌then◌else◌,
}
use kubernix.Prelude.Outcome.{Outcome, ok, err, ◌>>=◌}
use kubernix.StorePath.{StorePath, to_full}
use kubernix.Base32
use kubernix.MemoryStore.{LocalSigner}

pub record Fingerprint : Type 0 where
  pub path : Bytes
  pub nar_hash : Bytes
  pub nar_size : ℕ
  pub references : List StorePath
  pub store_dir : Bytes

unfoldable pub full_references : Bytes → List StorePath → Bytes
full_references store_dir references = join (codes ",") (map (λ r. to_full r store_dir) references)

unfoldable pub compute : Fingerprint → Bytes
unfolding full_references Base32.encode
compute f =
    codes "1;"
    ++ (f.path
        ++ (codes ";sha256:"
            ++ (Base32.encode f.nar_hash
                ++ (codes ";"
                    ++ (decimal f.nar_size
                        ++ (codes ";" ++ full_references f.store_dir f.references))))))

pub data SignError : Type 0 where
  unusable : Bytes → SignError

-- The functions of the packages ed25519-dalek and base64, on the seed of a key.
pub record Ed25519 : Type 0 where
  pub sign : Bytes → Bytes → Bytes
  pub verifying_key : Bytes → Bytes
  pub base64 : Bytes → Bytes

unfoldable pub from_material : Bytes → Bytes → Outcome SignError LocalSigner
from_material name material =
    if eqb (length material) 32
    then ok (record { name = name; key = material })
    else err (unusable (codes "expected 32 bytes, got " ++ decimal (length material)))

unfoldable pub material : LocalSigner → Bytes
material signer = signer.key

unfoldable pub public_key_string : Ed25519 → LocalSigner → Bytes
public_key_string ed signer = signer.name ++ (codes ":" ++ ed.base64 (ed.verifying_key signer.key))

-- `LocalSigner::sign`, which does not fail.
unfoldable pub sign : Ed25519 → LocalSigner → Bytes → Outcome SignError Bytes
sign ed signer data_ = ok (ed.sign signer.key data_)

unfoldable pub sign_path : Ed25519 → LocalSigner → Fingerprint → Outcome SignError Bytes
unfolding sign compute
sign_path ed signer f = do
  signature ← sign ed signer (compute f)
  ok (signer.name ++ (codes ":" ++ ed.base64 signature))
