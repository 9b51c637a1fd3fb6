-- ===== src/MemoryStore/Runs.antt =====
-- The changes of `MemoryStore` (crates/server/src/store.rs) that are operations for one tenant.
use kubernix.Prelude.{Bytes, List, [], ◌∷◌, ◌++◌, ◌≡◌, All, All-append, refl, ◌∙◌, ap, sym, ℕ}
use kubernix.TenantId.{TenantId}
use kubernix.StorePath.{StorePath}
use kubernix.Keys.{Tier}
use kubernix.PathInfo.{PathInfo, RemoteObject}
use kubernix.MemoryStore.{MemoryStore, partition}
use kubernix.MemoryStore.Methods.{record_path}
use kubernix.MemoryStore.Sharing.{
  signer, add_signatures, record_substituted_path, mark_substituter_miss,
}
use kubernix.MemoryStore.History.{
  Operation, record_op, signer_op, substitute_op, miss_op, sign_op, secret_op, IsFor, step, run,
  step_isolation,
}

-- Operations for the tenant `t` lead from `s` to `s'`.
pub record Runs (t : TenantId) (s s' : MemoryStore) : Type 0 where
  pub ops : List Operation
  pub own : All (IsFor t) ops
  pub result : s' ≡ run ops s

pub Runs-refl : (t : TenantId) (s : MemoryStore) → Runs t s s
Runs-refl t s = record { ops = []; own = tt; result = unfold run in refl }

Runs-step : (t : TenantId) (op : Operation) (s : MemoryStore) → IsFor t op → Runs t s (step op s)
Runs-step t op s own = record { ops = op ∷ []; own = (own, tt); result = unfold run in refl }

pub run-append :
    (ops more : List Operation) (s : MemoryStore) → run (ops ++ more) s ≡ run more (run ops s)
unfolding run
run-append [] more s = refl
run-append (op ∷ ops) more s = run-append ops more (step op s)

pub Runs-trans : (t : TenantId) (r s q : MemoryStore) → Runs t r s → Runs t s q → Runs t r q
Runs-trans t r s q first second = record {
  ops = first.ops ++ second.ops;
  own = All-append (IsFor t) first.ops second.ops first.own second.own;
  result =
      second.result ∙ ap (run second.ops) first.result ∙ sym (run-append first.ops second.ops r);
}

pub Runs-record_path :
    (t : TenantId) (info : PathInfo) (object : RemoteObject) (tier : Tier) (s : MemoryStore)
    → Runs t s (record_path t info object tier s)
unfolding step
Runs-record_path t info object tier s = Runs-step t (record_op t info object tier) s refl

pub Runs-signer : (t : TenantId) (seed : Bytes) (s : MemoryStore) → Runs t s (signer seed t s).0
unfolding step
Runs-signer t seed s = Runs-step t (signer_op seed t) s refl

pub Runs-record_substituted_path :
    (t : TenantId) (info : PathInfo) (object : RemoteObject) (url key : Bytes) (s : MemoryStore)
    → Runs t s (record_substituted_path t info object url key s)
unfolding step
Runs-record_substituted_path t info object url key s =
    Runs-step t (substitute_op t info object url key) s refl

pub Runs-mark_substituter_miss :
    (t : TenantId) (now : ℕ) (hash : Bytes) (s : MemoryStore)
    → Runs t s (mark_substituter_miss now t hash s)
unfolding step
Runs-mark_substituter_miss t now hash s = Runs-step t (miss_op now t hash) s refl

pub Runs-add_signatures :
    (t : TenantId) (path : StorePath) (sigs : List Bytes) (s : MemoryStore)
    → Runs t s (add_signatures t path sigs s).0
unfolding step
Runs-add_signatures t path sigs s = Runs-step t (sign_op t path sigs) s refl

IsFor-unique : (t u : TenantId) (op : Operation) → IsFor t op → IsFor u op → t ≡ u
IsFor-unique t u (record_op _ _ _ _) h g = sym h ∙ g
IsFor-unique t u (sign_op _ _ _) h g = sym h ∙ g
IsFor-unique t u (signer_op _ _) h g = sym h ∙ g
IsFor-unique t u (substitute_op _ _ _ _ _) h g = sym h ∙ g
IsFor-unique t u (miss_op _ _ _) h g = sym h ∙ g
IsFor-unique t u (secret_op _) h g = absurd h

run-isolation :
    (t u : TenantId) (ops : List Operation) (s : MemoryStore)
    → (t ≡ u → ⊥)
    → All (IsFor t) ops
    → partition u (run ops s) ≡ partition u s
unfolding run
run-isolation t u [] s ne own = refl
run-isolation t u (op ∷ ops) s ne (here, own) =
    run-isolation t u ops (step op s) ne own
    ∙ step_isolation op u s (λ other. ne (IsFor-unique t u op here other))

-- Such operations leave the partition of every other tenant alone.
pub Runs-isolation :
    (t u : TenantId) (s s' : MemoryStore)
    → (t ≡ u → ⊥)
    → Runs t s s'
    → partition u s' ≡ partition u s
Runs-isolation t u s s' ne r = ap (partition u) r.result ∙ run-isolation t u r.ops s ne r.own
