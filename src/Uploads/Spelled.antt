-- ===== src/Uploads/Spelled.antt =====
-- The keys that crates/server/src/uploads.rs grants, spelled out: a description of `key_is_permitted`
-- by the texts of the keys.
use kubernix.Prelude.{
  ◌≡◌, ◌≢◌, ◌++◌, ◌∷◌, [], none, some, Bytes, Bool, true, false, codes, ◌&&◌, ◌⊎◌, inl, inr, refl,
  sym, ap, ◌∙◌, subst, Bool-cases, Option-cases, &&-eq-true, All, In, length, eqb, eqb_iff,
  strip_prefix, strip_suffix, split_once, strip_prefix→eq, strip_suffix→eq, strip_suffix-append,
  split_once→eq, split_once-Without, Without, Occurs, ℕ, List, arith, not, if◌then◌else◌,
}
use kubernix.Prelude.Indexed.{contains}
use kubernix.TenantId.{TenantId}
use kubernix.Base32.{base32_chars, is_valid, all_in_alphabet}
use kubernix.Keys.{ObjectKey}
use kubernix.Uploads.{is_nar_name, is_shared_substituted_key, is_empty}

-- 32 characters of Nix's base32.
abbrev pub IsHash : Bytes → Type 0
IsHash h = (length h ≡ 32) × All (λ c. In c (codes "0123456789abcdfghijklmnpqrsvwxyz")) h

-- `nar/<hash>.nar.zst`
abbrev pub IsNarName : Bytes → Type 0
IsNarName s = (h : Bytes) × (s ≡ codes "nar/" ++ (h ++ codes ".nar.zst")) × IsHash h

-- `substituted/<slug>/nar/<hash>.nar.zst`
abbrev pub IsSubstitutedName : Bytes → Type 0
IsSubstitutedName s =
    (slug : Bytes) × (name : Bytes) × (s ≡ codes "substituted/" ++ (slug ++ (codes "/" ++ name)))
    × (slug ≢ [])
    × Without b'/' slug
    × IsNarName name

-- Under the tenant's prefix: a NAR or a log, or a NAR that is not trusted and only read.
abbrev pub IsOwnName : TenantId → Bool → Bytes → Type 0
IsOwnName tenant download s =
    (rest : Bytes) × ((s ≡ tenant.as_str ++ (codes "/nar/" ++ rest))
      ⊎ ((s ≡ tenant.as_str ++ (codes "/log/" ++ rest))
          ⊎ ((download ≡ true) × (s ≡ tenant.as_str ++ (codes "/untrusted/nar/" ++ rest)))))

-- There is no `..` in the text, and no `/` at its front.
abbrev pub Stays : Bytes → Type 0
Stays s = (Occurs (codes "..") s → ⊥) × ((rest : Bytes) → s ≢ codes "/" ++ rest)

abbrev pub IsGranted : ObjectKey → Bool → TenantId → Type 0
IsGranted key download tenant =
    Stays key.as_str
    × (((download ≡ true) × (IsNarName key.as_str ⊎ IsSubstitutedName key.as_str))
        ⊎ IsOwnName tenant download key.as_str)

contains→In : (c : ℕ) (xs : List ℕ) → contains xs c ≡ true → In c xs
contains→In c [] h = cc h
contains→In c (x ∷ xs) h = elim (Bool-cases (eqb x c)) [
  | inl e ↦ inl (sym ((eqb_iff x c).0 e))
  | inr n ↦ inr (contains→In c xs (rw n at h))
]

In→contains : (c : ℕ) (xs : List ℕ) → In c xs → contains xs c ≡ true
In→contains c [] h = absurd h
In→contains c (x ∷ xs) (inl e) = rw ((eqb_iff x c).1 (sym e))
In→contains c (x ∷ xs) (inr h) = ground (arith, In→contains c xs h)

alphabet_sound : (s : Bytes) → all_in_alphabet s ≡ true → All (λ c. In c base32_chars) s
unfolding all_in_alphabet
alphabet_sound [] h = tt
alphabet_sound (c ∷ s) h =
    let (p, q) = &&-eq-true (contains base32_chars c) (all_in_alphabet s) h in
    (contains→In c base32_chars p, alphabet_sound s q)

alphabet_complete : (s : Bytes) → All (λ c. In c base32_chars) s → all_in_alphabet s ≡ true
unfolding all_in_alphabet
alphabet_complete [] h = refl
alphabet_complete (c ∷ s) (h, hs) = rw (In→contains c base32_chars h) (alphabet_complete s hs)

is_hash→IsHash : (h : Bytes) → (eqb (length h) 32 && is_valid h) ≡ true → IsHash h
unfolding is_valid
is_hash→IsHash h e =
    let (p, q) = &&-eq-true (eqb (length h) 32) (is_valid h) e in
    let (_, r) = &&-eq-true (not (eqb (length h) 0)) (all_in_alphabet h) q in
    ((eqb_iff (length h) 32).0 p, alphabet_sound h r)

IsHash→is_hash : (h : Bytes) → IsHash h → (eqb (length h) 32 && is_valid h) ≡ true
unfolding is_valid
IsHash→is_hash h (e, a) = rw (e, alphabet_complete h a)

pub is_nar_name→IsNarName : (s : Bytes) → is_nar_name s ≡ true → IsNarName s
unfolding is_nar_name
is_nar_name→IsNarName s e = elim (Option-cases (strip_prefix s (codes "nar/"))) [
  | inl n ↦ cc (rw n at e)
  | inr (r, p) ↦ elim (Option-cases (strip_suffix r (codes ".nar.zst"))) [
    | inl n ↦ cc (rw (p, n) at e)
    | inr (h, q) ↦ (
      h,
      strip_prefix→eq s (codes "nar/") r p
          ∙ ap (λ x. codes "nar/" ++ x) (strip_suffix→eq r (codes ".nar.zst") h q),
      is_hash→IsHash h (rw (p, q) at e),
    )
  ]
]

pub IsNarName→is_nar_name : (s : Bytes) → IsNarName s → is_nar_name s ≡ true
unfolding is_nar_name
IsNarName→is_nar_name s (h, e, v) =
    subst (λ t. is_nar_name t ≡ true) (sym e)
      (subst
        (λ o.
          (elim o as (λ _. Bool) [
            | none ↦ false
            | some hash ↦ eqb (length hash) 32 && is_valid hash
          ])
          ≡ true)
        (sym (strip_suffix-append h (codes ".nar.zst"))) (IsHash→is_hash h v))

pub substituted→IsSubstitutedName :
    (key : ObjectKey) → is_shared_substituted_key key ≡ true → IsSubstitutedName key.as_str
unfolding is_shared_substituted_key is_empty
substituted→IsSubstitutedName key e =
    elim (Option-cases (strip_prefix key.as_str (codes "substituted/"))) [
      | inl n ↦ cc (rw n at e)
      | inr (rest, p) ↦ elim (Option-cases (split_once b'/' rest)) [
        | inl n ↦ cc (rw (p, n) at e)
        | inr ((slug, name), q) ↦
            let (whole, bare) = split_once→eq b'/' rest slug name q in
            elim (Bool-cases (eqb (length slug) 0)) [
              | inl z ↦ cc (rw (p, q, z) at e)
              | inr z ↦ (
                slug,
                name,
                strip_prefix→eq key.as_str (codes "substituted/") rest p
                    ∙ ap (λ x. codes "substituted/" ++ x) whole,
                (λ n. cc (z, ap (λ x. eqb (length x) 0) n)),
                bare,
                is_nar_name→IsNarName name (rw (p, q, z) at e),
              )
            ]
      ]
    ]

pub IsSubstitutedName→substituted :
    (key : ObjectKey) → IsSubstitutedName key.as_str → is_shared_substituted_key key ≡ true
unfolding is_shared_substituted_key is_empty
IsSubstitutedName→substituted key (slug, name, e, filled, bare, v) =
    subst (λ k. is_shared_substituted_key k ≡ true) (λ i. record { as_str = sym e i })
      (subst
        (λ o.
          (elim o as (λ _. Bool) [
            | none ↦ false
            | some (slug, name) ↦ if is_empty slug then false else is_nar_name name
          ])
          ≡ true)
        (sym (split_once-Without b'/' slug name bare)) (filled_name slug filled))
  where
    filled_name : (s : Bytes) → s ≢ [] → (if is_empty s then false else is_nar_name name) ≡ true
    filled_name [] n = absurd (n refl)
    filled_name (c ∷ s) n = ground (arith, IsNarName→is_nar_name name v)
