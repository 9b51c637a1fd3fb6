-- ===== src/Signing/Covers.antt =====
-- What the fingerprint of crates/signing/src/lib.rs commits a signature to.
use kubernix.Prelude.{
  ◌≡◌, ◌++◌, ◌∷◌, [], List, Bytes, true, false, codes, decimal, decimal-injective, lacks,
  split-injective, decimal-lacks, subst, append-cancel, All, arith, refl, ap, sym, ◌∙◌,
}
use kubernix.Prelude.Eq.{nat_eq}
use kubernix.StorePath.{StorePath, to_full}
use kubernix.Base32
use kubernix.Base32.Alphabet
use kubernix.Signing.{Fingerprint, full_references, compute}

-- The text of a reference has no comma, so the list of them can be split.
abbrev pub LacksComma : Bytes → List StorePath → Type 0
LacksComma store_dir references = All (λ r. lacks b',' (to_full r store_dir) ≡ true) references

to_full-injective : (dir : Bytes) (p q : StorePath) → to_full p dir ≡ to_full q dir → p ≡ q
unfolding to_full
to_full-injective dir p q h =
    let same = append-cancel (codes "/") p.as_str q.as_str (append-cancel dir _ _ h) in
    λ i. record { as_str = same i }

to_full-nonempty : (dir : Bytes) (p : StorePath) → to_full p dir ≡ [] → ⊥
unfolding to_full
to_full-nonempty [] p h = cc
to_full-nonempty (c ∷ dir) p h = cc

lacks-append-comma : (s r : Bytes) → lacks b',' (s ++ (b',' ∷ r)) ≡ false
lacks-append-comma [] r = ground arith
lacks-append-comma (x ∷ s) r = ground (arith, lacks-append-comma s r)

full_references-injective :
    (dir : Bytes) (ps qs : List StorePath)
    → LacksComma dir ps
    → LacksComma dir qs
    → full_references dir ps ≡ full_references dir qs
    → ps ≡ qs
unfolding full_references
full_references-injective dir [] [] hp hq h = refl
full_references-injective dir [] (q ∷ []) hp hq h = absurd (to_full-nonempty dir q (sym h))
full_references-injective dir [] (q ∷ (q' ∷ qs)) hp hq h =
    cc (ap (lacks b',') h, lacks-append-comma (to_full q dir) (full_references dir (q' ∷ qs)))
full_references-injective dir (p ∷ []) [] hp hq h = absurd (to_full-nonempty dir p h)
full_references-injective dir (p ∷ (p' ∷ ps)) [] hp hq h =
    cc (ap (lacks b',') h, lacks-append-comma (to_full p dir) (full_references dir (p' ∷ ps)))
full_references-injective dir (p ∷ []) (q ∷ []) hp hq h =
    ap (λ x. x ∷ []) (to_full-injective dir p q h)
full_references-injective dir (p ∷ []) (q ∷ (q' ∷ qs)) hp hq h =
    cc (ap (lacks b',') h, hp.0, lacks-append-comma (to_full q dir) (full_references dir (q' ∷ qs)))
full_references-injective dir (p ∷ (p' ∷ ps)) (q ∷ []) hp hq h =
    cc (ap (lacks b',') h, hq.0, lacks-append-comma (to_full p dir) (full_references dir (p' ∷ ps)))
full_references-injective dir (p ∷ (p' ∷ ps)) (q ∷ (q' ∷ qs)) hp hq h =
    let (first, rest) = split-injective b',' (to_full p dir) (to_full q dir) _ _ hp.0 hq.0 h in
    cc (
      to_full-injective dir p q first,
      full_references-injective dir (p' ∷ ps) (q' ∷ qs) hp.1 hq.1 rest,
    )

-- Two paths of one store, whose own texts have no semicolon and the texts of whose references have no
-- comma, have the same fingerprint only if they are the same path, with the same encoding of the hash,
-- the same size and the same references in the same order.
pub compute-injective :
    (f g : Fingerprint)
    → f.store_dir ≡ g.store_dir
    → (lacks b';' f.path ≡ true) × (lacks b';' g.path ≡ true)
    → LacksComma f.store_dir f.references × LacksComma g.store_dir g.references
    → compute f ≡ compute g
    → (f.path ≡ g.path)
      × (Base32.encode f.nar_hash ≡ Base32.encode g.nar_hash)
      × (f.nar_size ≡ g.nar_size)
      × (f.references ≡ g.references)
unfolding compute
compute-injective f g dir (pf, pg) (rf, rg) h =
    let (path, r1) =
      split-injective b';' f.path g.path _ _ pf pg (append-cancel (codes "1;") _ _ h) in
    let (hash, r2) =
      split-injective b';' (Base32.encode f.nar_hash) (Base32.encode g.nar_hash) _ _
        (Base32.Alphabet.encode-lacks b';' f.nar_hash refl)
        (Base32.Alphabet.encode-lacks b';' g.nar_hash refl)
        (append-cancel (codes "sha256:") _ _ r1) in
    let (size, refs) =
      split-injective b';' (decimal f.nar_size) (decimal g.nar_size) _ _
        (decimal-lacks b';' f.nar_size refl) (decimal-lacks b';' g.nar_size refl) r2 in
    (
      path,
      hash,
      decimal-injective f.nar_size g.nar_size size,
      full_references-injective f.store_dir f.references g.references rf
          (subst (λ d. LacksComma d g.references) (sym dir) rg)
          (refs ∙ ap (λ d. full_references d g.references) (sym dir)),
    )
