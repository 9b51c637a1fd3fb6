-- ===== src/StorePath/Rooted.antt =====
-- `from_full` and `to_full` of crates/types/src/store_path.rs are inverse to each other.
use mathlib.Core.Logic.{◌↔◌}
use kubernix.Prelude.{
  ◌≡◌, ◌++◌, some, Bytes, codes, strip_prefix, strip_prefix-append, strip_prefix→eq, arith, ap, ◌∙◌,
  Option-cases, inl, inr,
}
use kubernix.StorePath.{StorePath, from_full, to_full}

from_full-to_full :
    (store_dir : Bytes) (path : StorePath)
    → from_full store_dir (to_full path store_dir) ≡ some path
unfolding from_full to_full
from_full-to_full store_dir path =
    rw (strip_prefix-append store_dir (codes "/" ++ path.as_str), from_full)

to_full-from_full :
    (store_dir full : Bytes) (path : StorePath)
    → from_full store_dir full ≡ some path
    → full ≡ to_full path store_dir
unfolding from_full to_full
to_full-from_full store_dir full path h = elim (Option-cases (strip_prefix full store_dir)) [
  | inl e ↦ absurd (ground (arith, e))
  | inr (rest, e) ↦ elim (Option-cases (strip_prefix rest (codes "/"))) [
    | inl e' ↦ absurd (ground (arith, e, e'))
    | inr (bare, e') ↦
        let p : bare ≡ path.as_str = ground (arith, e, e') in
        strip_prefix→eq full store_dir rest e
        ∙ ap (λ r. store_dir ++ r)
            (strip_prefix→eq rest (codes "/") bare e' ∙ ap (λ b. codes "/" ++ b) p)
  ]
]

-- A printed path is taken exactly when it is the store directory, a `/` and the bare path; the bare
-- path is then what is returned.
pub from_full_iff :
    (store_dir full : Bytes) (path : StorePath)
    → (from_full store_dir full ≡ some path) ↔ (full ≡ to_full path store_dir)
from_full_iff store_dir full path =
    (to_full-from_full store_dir full path, λ e. rw e (from_full-to_full store_dir path))
