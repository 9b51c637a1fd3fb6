-- ===== src/Substitute/Narinfo.antt =====
-- `ParsedNarinfo::parse` of crates/server/src/substitute.rs.
use kubernix.Prelude.{
  ℕ, ◌++◌, ◌∷◌, [], List, Option, none, some, Bytes, codes, eqb, not, if◌then◌else◌, ◌&&◌,
  split_once, strip_prefix, length, lines, trim, split_whitespace, parse_u64,
}
use kubernix.Prelude.Eq.{◌==◌, nat_eq, list_eq}
use kubernix.Prelude.Outcome.{Outcome, ok, ok_or, ◌>>=◌}
use kubernix.Base32

pub data FetchError : Type 0 where
  http hash_mismatch upload : FetchError
  malformed unsupported_compression : Bytes → FetchError

pub record ParsedNarinfo : Type 0 where
  pub store_path : Bytes
  pub url : Bytes
  pub compression : Bytes
  pub nar_hash : Bytes
  pub nar_size : ℕ
  pub references : List Bytes
  pub deriver : Option Bytes
  pub sigs : List Bytes

-- The local variables of `parse`.
pub record Fields : Type 0 where
  pub store_path : Option Bytes
  pub url : Option Bytes
  pub compression : Bytes
  pub nar_hash : Option Bytes
  pub nar_size : Option ℕ
  pub references : List Bytes
  pub deriver : Option Bytes
  pub sigs : List Bytes

abbrev pub no_fields : Fields
no_fields = record {
  store_path = none;
  url = none;
  compression = codes "none";
  nar_hash = none;
  nar_size = none;
  references = [];
  deriver = none;
  sigs = [];
}

unfoldable pub parse_hash : Bytes → Option Bytes
unfolding Base32.decode
parse_hash value = elim (strip_prefix value (codes "sha256:")) [
  | none ↦ none
  | some h ↦ Base32.decode h 32
]

-- The `match` on the key of a line.
unfoldable pub with_field : Bytes → Bytes → Fields → Fields
unfolding parse_hash
with_field key value f =
    if key == codes "StorePath"
    then record f { store_path = some value }
    else if key == codes "URL"
    then record f { url = some value }
    else if key == codes "Compression"
    then record f { compression = value }
    else if key == codes "NarHash"
    then record f { nar_hash = parse_hash value }
    else if key == codes "NarSize"
    then record f { nar_size = parse_u64 value }
    else if (key == codes "References") && not (eqb (length value) 0)
    then record f { references = split_whitespace value }
    else if key == codes "Deriver"
    then record f { deriver = some value }
    else if key == codes "Sig"
    then record f { sigs = f.sigs ++ (value ∷ []) }
    else f

unfoldable pub with_line : Bytes → Fields → Fields
unfolding with_field
with_line line f = elim (split_once b':' line) [
  | none ↦ f
  | some (key, value) ↦ with_field key (trim value) f
]

unfoldable pub with_lines : List Bytes → Fields → Fields
unfolding with_line
with_lines [] f = f
with_lines (line ∷ rest) f = with_lines rest (with_line line f)

-- The end of `parse`: the fields that have to be there.
unfoldable pub finished : Fields → Outcome FetchError ParsedNarinfo
finished f = do
  store_path ← ok_or (malformed (codes "missing StorePath")) f.store_path
  url ← ok_or (malformed (codes "missing URL")) f.url
  nar_hash ← ok_or (malformed (codes "missing or malformed NarHash")) f.nar_hash
  nar_size ← ok_or (malformed (codes "missing NarSize")) f.nar_size
  ok (record {
    store_path = store_path;
    url = url;
    compression = f.compression;
    nar_hash = nar_hash;
    nar_size = nar_size;
    references = f.references;
    deriver = f.deriver;
    sigs = f.sigs;
  })

unfoldable pub parse : Bytes → Outcome FetchError ParsedNarinfo
unfolding with_lines finished
parse text = finished (with_lines (lines text) no_fields)
