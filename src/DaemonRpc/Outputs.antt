-- ===== src/DaemonRpc/Outputs.antt =====
-- `record_outputs` of crates/server/src/daemon_rpc.rs: all of a job's outputs, or none.
use kubernix.Prelude.{
  ◌∷◌, [], List, some, Bytes, true, ◌≡◌, refl, sym, ap, In, inl, inr, Bool-cases,
}
use kubernix.Prelude.Eq.{◌==◌, ==→eq, ==-refl}
use kubernix.Prelude.Outcome.{Outcome, ok, err, panic}
use kubernix.StorePath.{StorePath, store_path_eq}
use kubernix.Keys.{built}
use kubernix.MemoryStore.{MemoryStore}
use kubernix.MemoryStore.Methods.{contains_path}
use kubernix.MemoryStore.Sharing
use kubernix.DaemonRpc.{
  Outside, Connection, OutputInfo, output_path_info, output_object_of, record_each, expected_paths,
  bogus_paths, record_unless, record_outputs,
}
use kubernix.DaemonRpc.Recorded.{record_signed-tier, record_signed-keeps_tier}

contains_path→In :
    (allowed : List StorePath) (path : StorePath)
    → contains_path allowed path ≡ true
    → In path allowed
unfolding contains_path
contains_path→In [] path h = cc
contains_path→In (p ∷ ps) path h = elim (Bool-cases (p == path)) [
  | inl e ↦ inl (sym (==→eq p path e))
  | inr e ↦ inr (contains_path→In ps path (rw e at h))
]

In→contains_path :
    (allowed : List StorePath) (path : StorePath)
    → In path allowed
    → contains_path allowed path ≡ true
unfolding contains_path
In→contains_path [] path m = absurd m
In→contains_path (p ∷ ps) path (inl e) = rw (← e) (rw (==-refl path) refl)
In→contains_path (p ∷ ps) path (inr m) = elim (Bool-cases (p == path)) [
  | inl e ↦ rw e refl
  | inr e ↦ rw e (In→contains_path ps path m)
]

-- A path is reported, and not expected.
abbrev pub IsBogus : List StorePath → List OutputInfo → StorePath → Type 0
IsBogus allowed infos path =
    ((info : OutputInfo) × In info infos × (info.store_path ≡ path)) × (In path allowed → ⊥)

bogus_paths-IsBogus :
    (allowed : List StorePath) (infos : List OutputInfo) (path : StorePath)
    → In path (bogus_paths allowed infos)
    → IsBogus allowed infos path
unfolding bogus_paths
bogus_paths-IsBogus allowed [] path m = absurd m
bogus_paths-IsBogus allowed (info ∷ infos) path m =
    elim (Bool-cases (contains_path allowed info.store_path)) [
      | inl e ↦
          let ((other, member, same), out_) = bogus_paths-IsBogus allowed infos path (rw e at m) in
          ((other, inr member, same), out_)
      | inr e ↦ elim (rw e at m) [
        | inl same ↦ (
          (info, inl refl, sym same),
          λ member. cc (In→contains_path allowed path member, ap (contains_path allowed) same, e),
        )
        | inr rest ↦
            let ((other, member, same), out_) = bogus_paths-IsBogus allowed infos path rest in
            ((other, inr member, same), out_)
      ]
    ]

-- If no path is bogus, all that are reported are expected.
all_expected :
    (allowed : List StorePath) (infos : List OutputInfo)
    → bogus_paths allowed infos ≡ []
    → (info : OutputInfo) → In info infos
    → In info.store_path allowed
unfolding bogus_paths
all_expected allowed [] h info m = absurd m
all_expected allowed (first ∷ infos) h info m =
    elim (Bool-cases (contains_path allowed first.store_path)) [
      | inl e ↦ elim m [
        | inl same ↦ rw same (contains_path→In allowed first.store_path e)
        | inr rest ↦ all_expected allowed infos (rw e at h) info rest
      ]
      | inr e ↦ cc (rw e at h)
    ]

module _ (out : Outside) (conn : Connection) where
  record_each-keeps :
      (infos : List OutputInfo) (s : MemoryStore) (path : StorePath)
      → Sharing.tier conn.tenant path s ≡ some built
      → Sharing.tier conn.tenant path (record_each out conn infos s) ≡ some built
  unfolding record_each
  record_each-keeps [] s path h = h
  record_each-keeps (info ∷ infos) s path h = record_each-keeps infos _ path (
      record_signed-keeps_tier out conn (output_path_info info) (output_object_of info) built s path
        h)

  record_each-built :
      (infos : List OutputInfo) (s : MemoryStore) (info : OutputInfo)
      → In info infos
      → Sharing.tier conn.tenant info.store_path (record_each out conn infos s) ≡ some built
  unfolding record_each output_path_info
  record_each-built [] s info m = absurd m
  record_each-built (first ∷ infos) s info (inl e) = rw e (
      record_each-keeps infos _ first.store_path
        (record_signed-tier out conn (output_path_info first) (output_object_of first) built s))
  record_each-built (first ∷ infos) s info (inr m) = record_each-built infos _ info m

  -- What `record_outputs` returns, and what it leaves in the store.
  abbrev pub OutputsPost :
      List OutputInfo
      → List StorePath
      → MemoryStore
      → MemoryStore × Outcome (List StorePath) Unit
      → Type 0
  OutputsPost infos allowed s (s', ok _) =
      (info : OutputInfo)
      → In info infos
      → In info.store_path allowed × (Sharing.tier conn.tenant info.store_path s' ≡ some built)
  OutputsPost infos allowed s (s', err bogus) =
      (s' ≡ s)
      × (bogus ≡ [] → ⊥)
      × ((path : StorePath) → In path bogus → IsBogus allowed infos path)
  OutputsPost infos allowed s (s', panic) = ⊥

  record_unless_lem :
      (infos : List OutputInfo) (allowed bogus : List StorePath) (s : MemoryStore)
      → bogus_paths allowed infos ≡ bogus
      → OutputsPost infos allowed s (record_unless out conn infos bogus s)
  unfolding record_unless
  record_unless_lem infos allowed [] s e =
      λ info m. (all_expected allowed infos e info m, record_each-built infos s info m)
  record_unless_lem infos allowed (path ∷ paths) s e =
      (refl, λ h. cc, λ p m. bogus_paths-IsBogus allowed infos p (rw e m))

  -- Either every path that the worker reported is among the expected outputs, and is recorded as built;
  -- or nothing is recorded, and the error lists paths that were reported and are not expected.
  pub record_outputs-OutputsPost :
      (infos : List OutputInfo) (expected : List (Bytes × StorePath)) (s : MemoryStore)
      → OutputsPost infos (expected_paths expected) s (record_outputs out conn infos expected s)
  unfolding record_outputs
  record_outputs-OutputsPost infos expected s =
      record_unless_lem infos (expected_paths expected) _ s refl
