-- ===== src/Uid.antt =====
-- `UidAllocator` of crates/worker/src/uid.rs: the uid of each tenant with a live `store.img`.
pub mod Invariant
pub mod History
use Prim.Native.Nat.{min, max}
use kubernix.Prelude.{
  Bytes, lines, split_whitespace, parse_u64, ◌-◌, ℕ, ◌+◌, ◌^◌, ◌%◌, ◌≡◌, ◌∷◌, [], Option, none,
  some, Bool, true, false, List, leb, if◌then◌else◌,
}
use kubernix.Prelude.Eq.{Eq}
use kubernix.Prelude.Map
use kubernix.Prelude.Map.{Map}
use kubernix.Prelude.Outcome.{Outcome, ok, err, panic, ◌>>=◌}
use kubernix.TenantId.{TenantId, tenant_id_eq}

abbrev pub uid_base : ℕ
uid_base = 2000

abbrev pub uid_soft_cap : ℕ
uid_soft_cap = 65536

-- `free` is the source's vector from its end, where it is pushed and popped.
pub record UidAllocator : Type 0 where
  pub ceiling : ℕ
  pub next : ℕ
  pub free : List ℕ
  pub assigned : Map TenantId ℕ

pub data UidError : Type 0 where
  no_room exhausted unreadable : UidError

-- A line of `/proc/self/uid_map`: one past its last uid inside. The sum of two `u64` wraps.
unfoldable pub line_bound : List Bytes → Option ℕ
line_bound [] = none
line_bound (a ∷ []) = none
line_bound (a ∷ (b ∷ [])) = none
line_bound (a ∷ (b ∷ (c ∷ rest))) = elim (parse_u64 a) [
  | none ↦ none
  | some inside_start ↦ elim (parse_u64 b) [
    | none ↦ none
    | some outside_start ↦ elim (parse_u64 c) [
      | none ↦ none
      | some count ↦ some ((inside_start + count) % 2 ^ 64)
    ]
  ]
]

unfoldable pub larger : Option ℕ → Option ℕ → Option ℕ
larger none best = best
larger (some bound) none = some bound
larger (some bound) (some best) = some (max bound best)

unfoldable pub max_bound : List Bytes → Option ℕ
unfolding line_bound larger
max_bound [] = none
max_bound (line ∷ rest) = larger (line_bound (split_whitespace line)) (max_bound rest)

unfoldable pub capped_bound : Option ℕ → Option ℕ
capped_bound none = none
capped_bound (some bound) = some (min bound (2 ^ 32 - 1))

unfoldable pub parse_uid_map_bound : Bytes → Option ℕ
unfolding capped_bound max_bound
parse_uid_map_bound contents = capped_bound (max_bound (lines contents))

-- What `new` does with the bound that `/proc/self/uid_map` states, if it can be parsed.
unfoldable pub new : Option ℕ → Outcome UidError UidAllocator
new none = err unreadable
new (some namespace_bound) =
    let ceiling = min uid_soft_cap namespace_bound in
    if leb ceiling uid_base
    then err no_room
    else ok (record { ceiling = ceiling; next = uid_base; free = []; assigned = [] })

-- A uid that no tenant has: the last one freed, or the next one. `u32` has 32 bits.
unfoldable pub fresh_from : List ℕ → UidAllocator → Outcome UidError (ℕ × UidAllocator)
fresh_from (recycled ∷ free) a = ok (recycled, record a { free = free })
fresh_from [] a =
    if leb a.ceiling a.next
    then err exhausted
    else ok (a.next, record a { next = (a.next + 1) % 2 ^ 32 })

unfoldable pub fresh : UidAllocator → Outcome UidError (ℕ × UidAllocator)
fresh a = fresh_from a.free a

unfoldable pub assign : TenantId → ℕ × UidAllocator → ℕ × UidAllocator
assign tenant (raw, a) = (raw, record a { assigned = Map.insert tenant raw a.assigned })

-- The allocation for a tenant that has the uid `found`, if any.
unfoldable pub allocate_for :
    TenantId → Option ℕ → UidAllocator → Outcome UidError (ℕ × UidAllocator)
allocate_for tenant (some raw) a = ok (raw, a)
allocate_for tenant none a = do r ← fresh a; ok (assign tenant r)

unfoldable pub allocate : TenantId → UidAllocator → Outcome UidError (ℕ × UidAllocator)
allocate tenant a = allocate_for tenant (Map.get tenant a.assigned) a

unfoldable pub release_uid : TenantId → Option ℕ → UidAllocator → UidAllocator
release_uid tenant none a = a
release_uid tenant (some raw) a = record a {
  assigned = Map.remove tenant a.assigned;
  free = raw ∷ a.free;
}

unfoldable pub release : TenantId → UidAllocator → UidAllocator
release tenant a = release_uid tenant (Map.get tenant a.assigned) a

-- What a worker asks of its allocator. An allocation that fails changes nothing.
pub data Request : Type 0 where
  allocate_to : TenantId → Request
  release_of : TenantId → Request

unfoldable pub after : UidAllocator → Outcome UidError (ℕ × UidAllocator) → UidAllocator
after a (ok (raw, b)) = b
after a (err e) = a
after a panic = a

unfoldable pub serve : UidAllocator → List Request → UidAllocator
unfolding after
serve a [] = a
serve a (allocate_to t ∷ rest) = serve (after a (allocate t a)) rest
serve a (release_of t ∷ rest) = serve (release t a) rest
