-- ===== src/Claims.antt =====
-- The claims of a capability token, of crates/server/src/capability.rs.
use kubernix.Prelude.{[], ◌∷◌, List, Option, none, some, Bytes, ◌≡◌, refl, ap}
use kubernix.TenantId.{from_wire}
use kubernix.TenantId.Safe.{IsWireId, from_wire_self}
use kubernix.StorePath.{StorePath}
use kubernix.Uploads.Handler.{Capability}

pub record ExpectedOutputClaim : Type 0 where
  pub name : Bytes
  pub store_path : Bytes

pub record Claims : Type 0 where
  pub job_id : Bytes
  pub tenant : Bytes
  pub derivation_path : Bytes
  pub expected_outputs : List ExpectedOutputClaim

unfoldable pub output_claims : List (Bytes × StorePath) → List ExpectedOutputClaim
output_claims [] = []
output_claims ((name, path) ∷ outputs) =
    record { name = name; store_path = path.as_str } ∷ output_claims outputs

unfoldable pub claimed_outputs : List ExpectedOutputClaim → List (Bytes × StorePath)
claimed_outputs [] = []
claimed_outputs (o ∷ claims) = (o.name, record { as_str = o.store_path }) ∷ claimed_outputs claims

-- `Claims::from`
unfoldable pub from_capability : Capability → Claims
from_capability c = record {
  job_id = c.job_id;
  tenant = c.tenant.as_str;
  derivation_path = c.derivation_path.as_str;
  expected_outputs = output_claims c.expected_outputs;
}

unfoldable pub into_capability : Claims → Option Capability
into_capability claims = elim (from_wire claims.tenant) [
  | none ↦ none
  | some tenant ↦ some (record {
    job_id = claims.job_id;
    tenant = tenant;
    derivation_path = record { as_str = claims.derivation_path };
    expected_outputs = claimed_outputs claims.expected_outputs;
  })
]

claimed_outputs-output_claims :
    (outputs : List (Bytes × StorePath)) → claimed_outputs (output_claims outputs) ≡ outputs
unfolding claimed_outputs output_claims
claimed_outputs-output_claims [] = refl
claimed_outputs-output_claims ((name, path) ∷ outputs) =
    ap (λ rest. (name, path) ∷ rest) (claimed_outputs-output_claims outputs)

-- The claims of a capability for a wire tenant id are turned back into that capability.
pub into_capability-from_capability :
    (c : Capability) → IsWireId c.tenant → into_capability (from_capability c) ≡ some c
unfolding into_capability from_capability
into_capability-from_capability c w =
    rw ((from_wire_self c.tenant.as_str c.tenant refl w), into_capability)
      (ap (λ outputs. some (record c { expected_outputs = outputs }))
        (claimed_outputs-output_claims c.expected_outputs))
