-- ===== src/Derivation/Fields.antt =====
-- crates/types/src/derivation.rs: what each part of the parser reads, by the rules for `Reader`.
use Prim.Native.Nat.{Ordering}
use kubernix.Prelude.{
  ◌*◌, ◌-◌, ◌^◌, ◌<◌, ◌≡◌, refl, ap, List, [], ◌∷◌, ◌++◌, Bytes, length, All, All-append,
  append_assoc, append-nil, arith, map, ltb, false,
}
use kubernix.Prelude.Outcome.{Outcome, ok}
use kubernix.Wire.{u64_mod, to_le_bytes, field}
use kubernix.Wire.Reader
use kubernix.Wire.Reader.{Read, Truncated, ◌>>=◌, pure}
use kubernix.Wire.Reads.{
  IsWireText, Reads, Reads-bind, Reads-map, Reads-pure, Reads-u64, Reads-string,
}
use kubernix.StorePath.{StorePath, to_full, from_full_or_err}
use kubernix.StorePath.Rooted.{from_full_iff}
use kubernix.Derivation.{
  Output, BTreeMap, ParseError, compare_bytes, insert, wire, lift, rooted, output, output_loop,
  output_size, with_capacity, outputs_of, rooted_all, env_loop, env_of,
}

module _ {A : Type 0} where
  pub Reads-wire :
      (m : Read Truncated A) (encoding : Bytes) (a : A)
      → Reads m encoding a
      → Reads (wire m) encoding a
  Reads-wire m encoding a h = record {
    at = λ bytes pos rest small r. rw (h.at bytes pos rest small r, wire);
  }

module _ {A B : Type 0} where
  pub Reads-lift :
      (r : Outcome ParseError A) (f : A → Read ParseError B) (encoding : Bytes) (a : A) (b : B)
      → r ≡ ok a
      → Reads (f a) encoding b
      → Reads (lift r >>= f) encoding b
  Reads-lift r f encoding a b e h = rw e (record { at = h.at })

module _ {B : Type 0} where
  -- The next text of a `do` block.
  pub Reads-next :
      (f : Bytes → Read ParseError B) (value encoding : Bytes) (b : B)
      → IsWireText value
      → Reads (f value) encoding b
      → Reads (wire Reader.string >>= f) (field value ++ encoding) b
  Reads-next f value encoding b t h =
      Reads-bind (wire Reader.string) f (field value) encoding value b
        (Reads-wire Reader.string (field value) value (Reads-string value t.utf8 t.fits)) h

pub rooted-to_full :
    (store_dir : Bytes) (path : StorePath) → rooted store_dir (to_full path store_dir) ≡ ok path
unfolding rooted from_full_or_err
rooted-to_full store_dir path =
    rw ((from_full_iff store_dir (to_full path store_dir) path).1 refl, from_full_or_err)

pub rooted_all-to_full :
    (store_dir : Bytes) (paths : List StorePath)
    → rooted_all store_dir (map (λ p. to_full p store_dir) paths) ≡ ok paths
unfolding rooted_all
rooted_all-to_full store_dir [] = refl
rooted_all-to_full store_dir (p ∷ ps) =
    rw (rooted-to_full store_dir p, rooted_all)
      (rw (rooted_all-to_full store_dir ps, rooted_all) refl)

-- The texts of one output.
pub record IsWireOutput (store_dir : Bytes) (o : Output) : Type 0 where
  pub name : IsWireText o.name
  pub path : IsWireText (to_full o.path store_dir)
  pub algo : IsWireText o.algo
  pub hash : IsWireText o.hash

unfoldable pub output_fields : Bytes → Output → Bytes
output_fields store_dir o =
    field o.name ++ (field (to_full o.path store_dir) ++ (field o.algo ++ field o.hash))

pub Reads-output :
    (store_dir : Bytes) (o : Output)
    → IsWireOutput store_dir o
    → Reads (output store_dir) (output_fields store_dir o) o
unfolding output output_fields
Reads-output store_dir o h = Reads-next _ o.name _ o h.name (
    Reads-next _ (to_full o.path store_dir) _ o h.path (
      Reads-lift (rooted store_dir (to_full o.path store_dir)) _ _ o.path o
        (rooted-to_full store_dir o.path)
        (Reads-next _ o.algo _ o h.algo (
          Reads-map (wire Reader.string)
            (λ hash. record { name = o.name; path = o.path; algo = o.algo; hash = hash })
            (field o.hash) o.hash
            (Reads-wire Reader.string (field o.hash) o.hash
              (Reads-string o.hash h.hash.utf8 h.hash.fits))))))

unfoldable pub outputs_fields : Bytes → List Output → Bytes
outputs_fields store_dir [] = []
outputs_fields store_dir (o ∷ os) = output_fields store_dir o ++ outputs_fields store_dir os

pub Reads-output_loop :
    (store_dir : Bytes) (os : List Output)
    → All (IsWireOutput store_dir) os
    → Reads (output_loop store_dir (length os)) (outputs_fields store_dir os) os
unfolding output_loop outputs_fields
Reads-output_loop store_dir [] _ = Reads-pure []
Reads-output_loop store_dir (o ∷ os) (h, hs) =
    Reads-bind (output store_dir) _ (output_fields store_dir o) _ o (o ∷ os)
      (Reads-output store_dir o h)
      (Reads-map (output_loop store_dir (length os)) (λ rest. o ∷ rest) _ os
        (Reads-output_loop store_dir os hs))

-- A vector of outputs that fits in memory.
pub Reads-outputs :
    (store_dir : Bytes) (os : List Output)
    → All (IsWireOutput store_dir) os
    → length os * output_size < 2 ^ 63
    → Reads (outputs_of store_dir) (to_le_bytes 8 (length os) ++ outputs_fields store_dir os) os
unfolding outputs_of with_capacity
Reads-outputs store_dir os h small =
    let fits : ltb (2 ^ 63 - 1) (length os * output_size) ≡ false = ground arith in
    Reads-bind (wire Reader.u64) _ (to_le_bytes 8 (length os)) _ (length os) os
      (Reads-wire Reader.u64 _ (length os) (Reads-u64 (length os) (omega arith)))
      (rw fits (record { at = (Reads-output_loop store_dir os h).at }))

-- `insert` of a key above all keys puts its entry last.
abbrev pub Above : Bytes → BTreeMap Bytes → Type 0
Above k m = All (λ e. compare_bytes k e.0 ≡ Ordering.gt) m

-- Sorted by key, without duplicates, as every `BTreeMap` is.
abbrev pub IsSorted : BTreeMap Bytes → Type 0
IsSorted [] = Unit
IsSorted ((k, v) ∷ m) = All (λ e. compare_bytes e.0 k ≡ Ordering.gt) m × IsSorted m

insert-Above : (k v : Bytes) (m : BTreeMap Bytes) → Above k m → insert k v m ≡ m ++ (k, v) ∷ []
unfolding insert
insert-Above k v [] h = refl
insert-Above k v ((j, w) ∷ m) (h, hs) =
    rw (h, insert) (ap (λ r. (j, w) ∷ r) (insert-Above k v m hs))

unfoldable pub env_fields : BTreeMap Bytes → Bytes
env_fields [] = []
env_fields ((k, v) ∷ m) = field k ++ (field v ++ env_fields m)

abbrev pub IsWireEnv : BTreeMap Bytes → Type 0
IsWireEnv = All (λ e. IsWireText e.0 × IsWireText e.1)

Above-snoc :
    (k v : Bytes) (acc m : BTreeMap Bytes)
    → All (λ e. Above e.0 acc) m
    → All (λ e. compare_bytes e.0 k ≡ Ordering.gt) m
    → All (λ e. Above e.0 (acc ++ (k, v) ∷ [])) m
Above-snoc k v acc [] _ _ = tt
Above-snoc k v acc (e ∷ m) (h, hs) (g, gs) =
    (All-append _ acc ((k, v) ∷ []) h (g, tt), Above-snoc k v acc m hs gs)

Reads-env_loop :
    (m acc : BTreeMap Bytes)
    → IsWireEnv m
    → IsSorted m
    → All (λ e. Above e.0 acc) m
    → Reads (env_loop (length m) acc) (env_fields m) (acc ++ m)
unfolding env_loop env_fields
Reads-env_loop [] acc _ _ _ = rw append-nil (Reads-pure acc)
Reads-env_loop ((k, v) ∷ m) acc ((wk, wv), ws) (g, gs) (a, as_) =
    Reads-next _ k _ (acc ++ (k, v) ∷ m) wk (
      Reads-next _ v _ (acc ++ (k, v) ∷ m) wv (
        rw (insert-Above k v acc a) (
          rw append_assoc at
            (Reads-env_loop m (acc ++ (k, v) ∷ []) ws gs (Above-snoc k v acc m as_ g)))))

-- Every key is above those of the empty map.
Above-nil : (m : BTreeMap Bytes) → All (λ e. Above e.0 []) m
Above-nil [] = tt
Above-nil (e ∷ m) = (tt, Above-nil m)

pub Reads-env :
    (m : BTreeMap Bytes)
    → IsWireEnv m
    → IsSorted m
    → length m < u64_mod
    → Reads env_of (to_le_bytes 8 (length m) ++ env_fields m) m
unfolding env_of
Reads-env m w s fits =
    Reads-bind (wire Reader.u64) _ (to_le_bytes 8 (length m)) _ (length m) m
      (Reads-wire Reader.u64 _ (length m) (Reads-u64 (length m) fits))
      (Reads-env_loop m [] w s (Above-nil m))
