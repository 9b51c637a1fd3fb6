-- ===== src/Substitute/Forwards.antt =====
-- What the loop of `fetch_one` (crates/server/src/substitute.rs) sends to the upload.
use kubernix.Prelude.{
  ◌<◌, ◌≡◌, ◌++◌, ◌∷◌, [], List, Option, none, some, Bytes, Bool, true, false, length,
  length-append, append_assoc, append-nil, All, arith, refl, sym, ap, ◌∙◌, subst, inl, inr, ◌⊎◌,
  Bool-cases,
}
use kubernix.Prelude.Eq.{◌==◌, nat_eq, list_eq, ==→eq}
use kubernix.Prelude.Outcome.{Outcome, ok, err, panic}
use kubernix.Compression.{Compression}
use kubernix.Substitute.{Upstream}
use kubernix.Substitute.Narinfo.{FetchError}
use kubernix.Substitute.Fetch.{concat, sending, check_hash, verify_and_forward}

-- A body whose decoded form has the hash that the narinfo claims.
abbrev pub IsVerified : Upstream → Compression → Bytes → Bytes → Type 0
IsVerified up c nar_hash body =
    (nar : Bytes) × (up.decoded c body ≡ some nar) × (up.sha256 nar ≡ nar_hash)

module _ (up : Upstream) (c : Compression) (nar_hash : Bytes) where
  -- The loop sends all of a verified body, and less than all of any other.
  abbrev pub Forwards :
      Bytes → Option Bytes → List Bytes → List Bytes × Outcome FetchError Bytes → Type 0
  Forwards seen pending chunks (sent, ok file_hash) =
      (concat sent ≡ concat (sending pending chunks))
      × (file_hash ≡ up.sha256 (seen ++ concat chunks))
      × IsVerified up c nar_hash (seen ++ concat chunks)
  Forwards seen pending chunks (sent, err e) =
      (sent ≡ []) ⊎ (length (concat sent) < length (concat (sending pending chunks)))
  Forwards seen pending chunks (sent, panic) = ⊥

  check_hash_lem :
      (seen : Bytes) (pending decoded : Option Bytes)
      → up.decoded c seen ≡ decoded
      → Forwards seen pending [] (check_hash up nar_hash seen pending decoded)
  unfolding check_hash
  check_hash_lem seen pending none e = inl refl
  check_hash_lem seen pending (some nar) e = elim (Bool-cases (up.sha256 nar == nar_hash)) [
    | inl same ↦ rw same (
      refl,
      ap up.sha256 (sym (append-nil seen)),
      (nar, ap (up.decoded c) (append-nil seen) ∙ e, ==→eq (up.sha256 nar) nar_hash same),
    )
    | inr other ↦ rw other (inl refl)
  ]

  extend_lem :
      (seen chunk : Bytes) (pending : Option Bytes) (chunks sent : List Bytes)
      (r : Outcome FetchError Bytes)
      → 0 < length chunk
      → Forwards (seen ++ chunk) (some chunk) chunks (sent, r)
      → Forwards seen pending (chunk ∷ chunks) (sending pending sent, r)
  extend_lem seen chunk none chunks sent (ok h) n (all, hash, v) = (
    all,
    hash ∙ ap up.sha256 (append_assoc seen chunk (concat chunks)),
    subst (IsVerified up c nar_hash) (append_assoc seen chunk (concat chunks)) v,
  )
  extend_lem seen chunk (some p) chunks sent (ok h) n (all, hash, v) = (
    ap (λ s. p ++ s) all,
    hash ∙ ap up.sha256 (append_assoc seen chunk (concat chunks)),
    subst (IsVerified up c nar_hash) (append_assoc seen chunk (concat chunks)) v,
  )
  extend_lem seen chunk none chunks sent (err e) n f = f
  extend_lem seen chunk (some p) chunks sent (err e) n (inl none_) = inr (
      omega (
        arith,
        ap (λ s. length (concat s)) none_,
        length-append p (concat sent),
        length-append p (chunk ++ concat chunks),
        length-append chunk (concat chunks),
        n,
      ))
  extend_lem seen chunk (some p) chunks sent (err e) n (inr less) =
      inr (
        omega
          (arith, length-append p (concat sent), length-append p (chunk ++ concat chunks), less))
  extend_lem seen chunk pending chunks sent panic n f = f

  pub verify_and_forward_lem :
      (ends_well : Bool) (seen : Bytes) (pending : Option Bytes) (chunks : List Bytes)
      → All (λ chunk. 0 < length chunk) chunks
      → Forwards seen pending chunks
          (verify_and_forward up c nar_hash ends_well seen pending chunks)
  unfolding verify_and_forward
  verify_and_forward_lem true seen pending [] n = check_hash_lem seen pending _ refl
  verify_and_forward_lem false seen pending [] n = inl refl
  verify_and_forward_lem ends_well seen pending (chunk ∷ chunks) (n, ns) =
      elim (Bool-cases (up.decodes c seen chunk)) [
        | inl e ↦ rw e (
            extend_lem seen chunk pending chunks _ _ n
              (verify_and_forward_lem ends_well (seen ++ chunk) (some chunk) chunks ns))
        | inr e ↦ rw e (inl refl)
      ]
