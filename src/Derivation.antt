-- ===== src/Derivation.antt =====
-- crates/types/src/derivation.rs: the derivation that a build request carries, and its parser.
pub mod Fields
pub mod RoundTrip
pub mod Rejects
use Prim.Native.Nat.{compare, Ordering}
use kubernix.Prelude.{
  ℕ, zero, suc, ◌+◌, ◌-◌, ◌*◌, ◌^◌, List, [], ◌∷◌, ◌++◌, Bytes, ltb, if◌then◌else◌, Bool, true,
  false,
}
use kubernix.Prelude.Map.{Map}
use kubernix.Prelude.Outcome.{Outcome, ok, err, panic, map_err}
use kubernix.Wire.Reader
use kubernix.Wire.Reader.{Read, Truncated, ◌>>=◌, pure}
use kubernix.StorePath.{StorePath, NotRooted, from_full_or_err}

-- crates/types/src/system.rs
pub record System : Type 0 where
  pub as_str : Bytes

pub record Output : Type 0 where
  pub name : Bytes
  pub path : StorePath
  pub algo : Bytes
  pub hash : Bytes

-- A `BTreeMap`: its entries, sorted by key.
abbrev pub BTreeMap : Type 0 → Type 0
BTreeMap V = List (Bytes × V)

pub record BasicDerivation : Type 0 where
  pub outputs : List Output
  pub input_srcs : List StorePath
  pub platform : System
  pub builder : Bytes
  pub args : List Bytes
  pub env : BTreeMap Bytes

-- What the message of a `ParseError` says.
pub data ParseError : Type 0 where
  truncated : Truncated → ParseError
  not_rooted : NotRooted → ParseError

-- `Ord` of texts: the order of their bytes.
unfoldable pub compare_bytes : Bytes → Bytes → Ordering
compare_bytes [] [] = Ordering.eq
compare_bytes [] (y ∷ ys) = Ordering.lt
compare_bytes (x ∷ xs) [] = Ordering.gt
compare_bytes (x ∷ xs) (y ∷ ys) =
    let rest = compare_bytes xs ys in
    elim (compare x y) [
      | Ordering.lt ↦ Ordering.lt
      | Ordering.eq ↦ rest
      | Ordering.gt ↦ Ordering.gt
    ]

-- `env.insert(key, value)`: an old entry keeps its key.
unfoldable pub insert : Bytes → Bytes → BTreeMap Bytes → BTreeMap Bytes
insert k v [] = (k, v) ∷ []
insert k v ((j, w) ∷ m) =
    let rest = insert k v m in
    elim (compare_bytes k j) [
      | Ordering.lt ↦ (k, v) ∷ (j, w) ∷ m
      | Ordering.eq ↦ (j, v) ∷ m
      | Ordering.gt ↦ (j, w) ∷ rest
    ]

-- `?` on a read of the wire format: its error becomes a `ParseError`.
abbrev pub wire : {A : Type 0} → Read Truncated A → Read ParseError A
wire m bytes pos = map_err truncated (m bytes pos)

abbrev pub lift : {A : Type 0} → Outcome ParseError A → Read ParseError A
lift (ok a) = pure a
lift (err e) = λ bytes pos. err e
lift panic = λ bytes pos. panic

-- `rooted`
unfoldable pub rooted : Bytes → Bytes → Outcome ParseError StorePath
unfolding from_full_or_err
rooted store_dir s = map_err not_rooted (from_full_or_err store_dir s)

unfoldable pub output : Bytes → Read ParseError Output
unfolding rooted
output store_dir = do
  name ← wire Reader.string
  full ← wire Reader.string
  path ← lift (rooted store_dir full)
  algo ← wire Reader.string
  hash ← wire Reader.string
  pure (record { name = name; path = path; algo = algo; hash = hash })

unfoldable pub output_loop : Bytes → ℕ → Read ParseError (List Output)
output_loop store_dir zero = pure []
output_loop store_dir (suc count) = do
  o ← output store_dir
  rest ← output_loop store_dir count
  pure (o ∷ rest)

-- `size_of::<Output>()` on a 64-bit machine: four `String`s.
abbrev pub output_size : ℕ
output_size = 96

-- `Vec::with_capacity(count)` panics if the vector would have more than `isize::MAX` bytes.
unfoldable pub with_capacity : ℕ → Read ParseError (Unit {0})
with_capacity count =
    if ltb (2 ^ 63 - 1) (count * output_size) then (λ bytes pos. panic) else pure tt

unfoldable pub outputs_of : Bytes → Read ParseError (List Output)
outputs_of store_dir = do
  count ← wire Reader.u64
  _ ← with_capacity count
  output_loop store_dir count

-- `.map(rooted).collect()`: the first error ends it.
unfoldable pub rooted_all : Bytes → List Bytes → Outcome ParseError (List StorePath)
rooted_all store_dir [] = ok []
rooted_all store_dir (s ∷ ss) = elim (rooted store_dir s) [
  | ok p ↦ elim (rooted_all store_dir ss) [ ok ps ↦ ok (p ∷ ps) | err e ↦ err e | panic ↦ panic ]
  | err e ↦ err e
  | panic ↦ panic
]

unfoldable pub env_loop : ℕ → BTreeMap Bytes → Read ParseError (BTreeMap Bytes)
env_loop zero env = pure env
env_loop (suc count) env = do
  key ← wire Reader.string
  value ← wire Reader.string
  env_loop count (insert key value env)

unfoldable pub env_of : Read ParseError (BTreeMap Bytes)
env_of = do count ← wire Reader.u64; env_loop count []

unfoldable pub parse_at : Bytes → Read ParseError BasicDerivation
parse_at store_dir = do
  outputs ← outputs_of store_dir
  srcs ← wire Reader.strings
  input_srcs ← lift (rooted_all store_dir srcs)
  platform ← wire Reader.string
  builder ← wire Reader.string
  args ← wire Reader.strings
  env ← env_of
  pure (record {
    outputs = outputs;
    input_srcs = input_srcs;
    platform = record { as_str = platform };
    builder = builder;
    args = args;
    env = env;
  })

unfoldable pub parse : Bytes → Bytes → Outcome ParseError BasicDerivation
parse bytes store_dir = elim (parse_at store_dir bytes 0) [
  | ok (drv, pos) ↦ ok drv
  | err e ↦ err e
  | panic ↦ panic
]
