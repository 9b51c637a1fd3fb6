-- ===== src/Examples/Wires.antt =====
-- Buffers of the wire format (crates/types/src/wire.rs and crates/types/src/derivation.rs).
use kubernix.Prelude.{
  [], ◌∷◌, ◌++◌, ◌-◌, Bytes, codes, refl, arith, true, List, ◌≡◌, length, ltb, ltb→lt,
}
use kubernix.Prelude.Outcome.{ok, panic}
use kubernix.Utf8.{is_utf8}
use kubernix.StorePath.{to_full}
use kubernix.Wire.{u64_mod, to_le_bytes, padding, field, write_u64, write_bytes}
use kubernix.Wire.Reader
use kubernix.Wire.Reader.{Truncated, slice}
use kubernix.Wire.Reads.{IsBuffer, IsWireText, text_fields}
use kubernix.Wire.RoundTrip.{Field, word, text, write_fields, read_fields, read_fields-write_fields}
use kubernix.Wire.Bounds.{string_panics}
use kubernix.NarCopy.{copy_nar}
use kubernix.NarCopy.Grammar.{Node, regular, symlink, directory, none, entry, Fits, nar}
use kubernix.NarCopy.Archives.{copy_nar-exact}
use kubernix.Derivation.{BasicDerivation, compare_bytes, parse}
use kubernix.Derivation.Fields.{output_fields, outputs_fields, env_fields}
use kubernix.Derivation.RoundTrip.{IsWire, serialize, parse-serialize}
use kubernix.Derivation.Rejects.{parse_huge_count_panics}
use kubernix.Examples.Data.{hello}

abbrev fields : List Field
fields = text (codes "hello") ∷ word 258 ∷ text [] ∷ []

fields-IsBuffer : IsBuffer (write_fields [] fields)
unfolding write_u64 write_bytes to_le_bytes padding
fields-IsBuffer = ltb→lt _ _ refl

read_fields-write_fields_example :
    read_fields fields (write_fields [] fields) 0 ≡ ok (fields, length (write_fields [] fields))
read_fields-write_fields_example =
    read_fields-write_fields fields (omega arith, (omega arith, (omega arith, tt))) fields-IsBuffer

abbrev eight : Bytes
eight = codes "truncate"

huge-IsBuffer : IsBuffer (to_le_bytes 8 (u64_mod - 1) ++ eight)
unfolding to_le_bytes
huge-IsBuffer = ltb→lt _ _ refl

string_panics_example : Reader.string (to_le_bytes 8 (u64_mod - 1) ++ eight) 0 ≡ panic
string_panics_example = string_panics (u64_mod - 1) eight (omega arith) (omega arith) huge-IsBuffer

parse_huge_count_panics_example :
    parse (to_le_bytes 8 (u64_mod - 1) ++ eight) (codes "/nix/store") ≡ panic
parse_huge_count_panics_example =
    parse_huge_count_panics (u64_mod - 1) eight (codes "/nix/store") (omega arith) (omega arith)
      huge-IsBuffer

abbrev store_dir : Bytes
store_dir = codes "/nix/store"

abbrev drv : BasicDerivation
drv = record {
  outputs = record { name = codes "out"; path = hello; algo = []; hash = [] } ∷ [];
  input_srcs = hello ∷ [];
  platform = record { as_str = codes "x86_64-linux" };
  builder = codes "/bin/sh";
  args = codes "-c" ∷ [];
  env = (codes "a", codes "1") ∷ (codes "b", []) ∷ [];
}

wire_text : (s : Bytes) → is_utf8 s ≡ true → ltb (length s) u64_mod ≡ true → IsWireText s
wire_text s valid small = record { utf8 = valid; fits = ltb→lt (length s) u64_mod small }

drv-IsWire : IsWire store_dir drv
unfolding is_utf8 to_full compare_bytes
drv-IsWire = record {
  outputs = (
    record {
      name = wire_text _ refl refl;
      path = wire_text _ refl refl;
      algo = wire_text _ refl refl;
      hash = wire_text _ refl refl;
    },
    tt,
  );
  outputs_fit = omega arith;
  srcs = (wire_text _ refl refl, tt);
  srcs_fit = omega arith;
  platform = wire_text _ refl refl;
  builder = wire_text _ refl refl;
  args = (wire_text _ refl refl, tt);
  args_fit = omega arith;
  env = (
    (wire_text _ refl refl, wire_text _ refl refl),
    ((wire_text _ refl refl, wire_text _ refl refl), tt),
  );
  env_sorted = ((refl, tt), (tt, tt));
  env_fits = omega arith;
}

drv-IsBuffer : IsBuffer (serialize store_dir drv ++ [])
unfolding serialize outputs_fields output_fields env_fields text_fields field to_le_bytes padding
    to_full
drv-IsBuffer = ltb→lt _ _ refl

parse-serialize_example : parse (serialize store_dir drv ++ []) store_dir ≡ ok drv
parse-serialize_example = parse-serialize store_dir drv [] drv-IsWire drv-IsBuffer

abbrev tree : Node
tree = directory (
    entry (codes "bin") (directory (entry (codes "hello") (regular true (codes "#!")) none))
      (entry (codes "link") (symlink (codes "bin/hello")) none))

tree-Fits : Fits tree
unfolding Fits
tree-Fits = (omega arith, ((omega arith, (omega arith, tt)), (omega arith, (omega arith, tt))))

copy_nar-exact_example : copy_nar (nar tree ++ 7 ∷ []) ≡ ok (tt, 7 ∷ [], nar tree)
copy_nar-exact_example = copy_nar-exact tree (7 ∷ []) tree-Fits
