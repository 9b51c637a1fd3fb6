-- ===== src/ContentPath/Verify.antt =====
-- What the checks of crates/server/src/store_path.rs accept.
use kubernix.Prelude.{
  List, some, Bytes, true, codes, ◌≡◌, ◌↔◌, refl, ◌∙◌, ap, subst, not, if◌then◌else◌, Bool-cases,
  inl, inr,
}
use kubernix.Prelude.Eq.{◌==◌, nat_eq, list_eq, ==-refl, ==→eq}
use kubernix.Prelude.Outcome.{ok, err, ok_or, ◌>>=◌, >>=-eq-ok, ok_or-eq-ok}
use kubernix.StorePath.{StorePath, store_path_eq}
use kubernix.StorePath
use kubernix.ContentPath.{store_path_for, ContentAddress, Rejection}
use kubernix.ContentPath.Check.{hashed_contents, compare_hash, compare_path, verify}

-- The bytes hash to the address, and the address belongs at the path.
pub record IsContentOf (sha256 : Bytes → Bytes) (dir : Bytes) (path : StorePath)
    (ca : ContentAddress) (references : List StorePath) (nar : Bytes) : Type 0 where
  pub name : Bytes
  pub contents : Bytes
  pub named : StorePath.name path ≡ some name
  pub algo : ca.algo ≡ codes "sha256"
  pub content : hashed_contents ca.method nar ≡ some contents
  pub hash : sha256 contents ≡ ca.hash
  pub at : store_path_for sha256 dir name ca.method ca.algo ca.hash references ≡ some path

compare_hash-ok :
    (ca : ContentAddress) (actual : Bytes) (u : Unit {0})
    → compare_hash ca actual ≡ ok u
    → actual ≡ ca.hash
unfolding compare_hash
compare_hash-ok ca actual u h = elim (Bool-cases (actual == ca.hash)) [
  | inl p ↦ ==→eq actual ca.hash p
  | inr p ↦ cc (rw p at h)
]

compare_path-ok :
    (path computed : StorePath) (u : Unit {0}) → compare_path path computed ≡ ok u → computed ≡ path
unfolding compare_path
compare_path-ok path computed u h = elim (Bool-cases (computed == path)) [
  | inl p ↦ ==→eq computed path p
  | inr p ↦ cc (rw p at h)
]

compare_hash-same : (ca : ContentAddress) → compare_hash ca ca.hash ≡ ok tt
unfolding compare_hash
compare_hash-same ca = rw (==-refl ca.hash) refl

compare_path-same : (path : StorePath) → compare_path path path ≡ ok tt
unfolding compare_path
compare_path-same path = rw (==-refl path) refl

algo-ok :
    (e : Rejection) (algo : Bytes) (u : Unit {0})
    → (if not (algo == codes "sha256") then err e else ok tt) ≡ ok u
    → algo ≡ codes "sha256"
algo-ok e algo u h = elim (Bool-cases (algo == codes "sha256")) [
  | inl p ↦ ==→eq algo (codes "sha256") p
  | inr p ↦ cc (rw p at h)
]

module _ (sha256 : Bytes → Bytes) (dir : Bytes) (path : StorePath) (ca : ContentAddress)
    (references : List StorePath) (nar : Bytes) where
  verify_sound :
      verify sha256 dir path ca references nar ≡ ok tt
      → IsContentOf sha256 dir path ca references nar
  unfolding verify
  verify_sound h =
      let (name, named, h1) = >>=-eq-ok _ _ h in
      let (u, algo, h2) = >>=-eq-ok _ _ h1 in
      let (contents, content, h3) = >>=-eq-ok _ _ h2 in
      let (v, hash, h4) = >>=-eq-ok _ _ h3 in
      let (computed, at, last) = >>=-eq-ok _ _ h4 in
      let q = compare_hash-ok ca (sha256 contents) v hash in
      record {
        name = name;
        contents = contents;
        named = ok_or-eq-ok _ _ named;
        algo = algo-ok _ ca.algo u algo;
        content = ok_or-eq-ok _ _ content;
        hash = q;
        at =
            subst (λ x. store_path_for sha256 dir name ca.method ca.algo x references ≡ some path) q
              (ok_or-eq-ok _ _ at ∙ ap some (compare_path-ok path computed tt last));
      }

  verify_complete :
      IsContentOf sha256 dir path ca references nar
      → verify sha256 dir path ca references nar ≡ ok tt
  unfolding verify
  verify_complete c =
      let e : (ca.algo == codes "sha256") ≡ true = rw c.algo refl in
      rw (c.named, verify, ◌>>=◌, ok_or)
        (rw e
          (rw c.content (rw c.hash (rw (compare_hash-same ca) (rw c.at (compare_path-same path))))))

  -- `verify` accepts a path, an address and references for a NAR if and only if the algorithm is
  -- sha256, what the method hashes of the NAR hashes to the address, and the address with the
  -- references and the path's own name belongs at exactly this path.
  pub verify_iff :
      (verify sha256 dir path ca references nar ≡ ok tt)
      ↔ IsContentOf sha256 dir path ca references nar
  verify_iff = (verify_sound, verify_complete)
