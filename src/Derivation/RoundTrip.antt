-- ===== src/Derivation/RoundTrip.antt =====
-- crates/types/src/derivation.rs: `parse` against the wire form that a client's
-- `serializeDerivation` writes, given here field by field.
use kubernix.Prelude.{◌*◌, ◌^◌, ◌<◌, ◌≡◌, List, ◌++◌, Bytes, length, All, map}
use kubernix.Prelude.Outcome.{ok}
use kubernix.Wire.{u64_mod, to_le_bytes, field}
use kubernix.Wire.Reader
use kubernix.Wire.Reader.{Read, ◌>>=◌, pure}
use kubernix.Wire.Reads.{
  IsBuffer, IsWireText, Reads, Reads-bind, Reads-map, Reads-strings, Reads-start, text_fields,
}
use kubernix.StorePath.{StorePath, to_full}
use kubernix.Derivation.{
  BasicDerivation, wire, output_size, outputs_of, rooted_all, env_of, parse_at, parse,
}
use kubernix.Derivation.Fields.{
  Reads-wire, Reads-lift, Reads-next, IsWireOutput, outputs_fields, Reads-outputs, IsSorted,
  IsWireEnv, env_fields, Reads-env, rooted_all-to_full,
}

abbrev pub full_paths : Bytes → List StorePath → List Bytes
full_paths store_dir = map (λ p. to_full p store_dir)

-- What the wire can carry: valid UTF-8, counts of 64 bits, a sorted environment, and a vector of
-- outputs that fits in memory.
pub record IsWire (store_dir : Bytes) (drv : BasicDerivation) : Type 0 where
  pub outputs : All (IsWireOutput store_dir) drv.outputs
  pub outputs_fit : length drv.outputs * output_size < 2 ^ 63
  pub srcs : All IsWireText (full_paths store_dir drv.input_srcs)
  pub srcs_fit : length (full_paths store_dir drv.input_srcs) < u64_mod
  pub platform : IsWireText drv.platform.as_str
  pub builder : IsWireText drv.builder
  pub args : All IsWireText drv.args
  pub args_fit : length drv.args < u64_mod
  pub env : IsWireEnv drv.env
  pub env_sorted : IsSorted drv.env
  pub env_fits : length drv.env < u64_mod

abbrev texts : List Bytes → Bytes
texts values = to_le_bytes 8 (length values) ++ text_fields values

-- The wire form of a derivation whose paths are printed under `store_dir`.
unfoldable pub serialize : Bytes → BasicDerivation → Bytes
serialize store_dir drv =
    (to_le_bytes 8 (length drv.outputs) ++ outputs_fields store_dir drv.outputs)
    ++ (texts (full_paths store_dir drv.input_srcs)
        ++ (field drv.platform.as_str
            ++ (field drv.builder
                ++ (texts drv.args ++ (to_le_bytes 8 (length drv.env) ++ env_fields drv.env)))))

Reads-parse_at :
    (store_dir : Bytes) (drv : BasicDerivation)
    → IsWire store_dir drv
    → Reads (parse_at store_dir) (serialize store_dir drv) drv
unfolding parse_at serialize
Reads-parse_at store_dir drv h =
    let srcs = full_paths store_dir drv.input_srcs in
    Reads-bind (outputs_of store_dir) _ _ _ drv.outputs drv
      (Reads-outputs store_dir drv.outputs h.outputs h.outputs_fit)
      (Reads-bind (wire Reader.strings) _ (texts srcs) _ srcs drv
        (Reads-wire Reader.strings (texts srcs) srcs (Reads-strings srcs h.srcs h.srcs_fit))
        (Reads-lift (rooted_all store_dir srcs) _ _ drv.input_srcs drv
          (rooted_all-to_full store_dir drv.input_srcs)
          (Reads-next _ drv.platform.as_str _ drv h.platform (
            Reads-next _ drv.builder _ drv h.builder (
              Reads-bind (wire Reader.strings) _ (texts drv.args) _ drv.args drv
                (Reads-wire Reader.strings (texts drv.args) drv.args
                  (Reads-strings drv.args h.args h.args_fit))
                (Reads-map env_of (λ env. record drv { env = env }) _ drv.env
                  (Reads-env drv.env h.env h.env_sorted h.env_fits)))))))

-- `parse` of the wire form of a derivation returns that derivation, whatever follows it in the
-- buffer, if its texts are UTF-8, its counts fit and its environment is sorted.
pub parse-serialize :
    (store_dir : Bytes) (drv : BasicDerivation) (rest : Bytes)
    → IsWire store_dir drv
    → IsBuffer (serialize store_dir drv ++ rest)
    → parse (serialize store_dir drv ++ rest) store_dir ≡ ok drv
unfolding parse
parse-serialize store_dir drv rest h small = rw (
  Reads-start (parse_at store_dir) (serialize store_dir drv) drv (Reads-parse_at store_dir drv h)
      rest small,
  parse,
)
