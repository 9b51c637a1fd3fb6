-- ===== src/Uid/History.antt =====
-- `allocate` and `release` of crates/worker/src/uid.rs, and what holds after any history of them.
use kubernix.Prelude.{
  ℕ, ◌<◌, ◌≤◌, ◌≡◌, ◌∷◌, [], Option, none, some, List, arith, inl, inr, ◌⊎◌, In, refl, sym, ap, ◌∙◌,
  subst, Bool-cases,
}
use kubernix.Prelude.Eq.{◌==◌, ==→eq}
use kubernix.Prelude.Map
use kubernix.Prelude.Map.{
  Map, get-insert, get-insert_self, get-insert_ne, get-remove, get-remove_self, get-remove_ne,
}
use kubernix.Prelude.Outcome.{Outcome, ok, err, panic, ◌>>=◌}
use kubernix.TenantId.{TenantId, tenant_id_eq}
use kubernix.Uid.{
  uid_base, uid_soft_cap, UidAllocator, UidError, exhausted, new, fresh_from, fresh, assign,
  allocate_for, allocate, release_uid, release, Request, allocate_to, release_of, after, serve,
}
use kubernix.Uid.Invariant.{IsValid, IsFresh, IsExhausted, FreshPost, fresh_lem, new-IsValid}

module _ (t : TenantId) (raw : ℕ) (a b : UidAllocator) (f : IsFresh a raw b) where
  -- The uids of the map after `t` has got `raw`.
  assigned_cases :
      (s : TenantId) (u : ℕ)
      → Map.get s (Map.insert t raw b.assigned) ≡ some u
      → ((t ≡ s) × (u ≡ raw)) ⊎ (Map.get s a.assigned ≡ some u)
  assigned_cases s u h = elim (Bool-cases (t == s)) [
    | inl e ↦ inl (==→eq t s e, cc (rw (get-insert t s raw b.assigned, e) at h))
    | inr e ↦ inr (ap (Map.get s) (sym f.same) ∙ (rw (get-insert t s raw b.assigned, e) at h))
  ]

  assign-IsValid : IsValid (assign t (raw, b)).1
  unfolding assign
  assign-IsValid = record {
    capped = f.valid.capped;
    next_in = f.valid.next_in;
    free_in = f.valid.free_in;
    free_distinct = f.valid.free_distinct;
    used_in = λ s u h. elim (assigned_cases s u h) [
      | inl (_, e) ↦ rw e f.in_range
      | inr g ↦ f.valid.used_in s u (ap (Map.get s) f.same ∙ g)
    ];
    used_not_free = λ s u h m. elim (assigned_cases s u h) [
      | inl (_, e) ↦ f.not_free (subst (λ x. In x b.free) e m)
      | inr g ↦ f.valid.used_not_free s u (ap (Map.get s) f.same ∙ g) m
    ];
    used_once = λ s r u h k. elim (assigned_cases s u h) [
      | inl (p, e) ↦ elim (assigned_cases r u k) [
        | inl (q, _) ↦ sym p ∙ q
        | inr g ↦ absurd (f.not_used r (g ∙ ap some e))
      ]
      | inr g ↦ elim (assigned_cases r u k) [
        | inl (_, e) ↦ absurd (f.not_used s (g ∙ ap some e))
        | inr g' ↦ f.valid.used_once s r u (ap (Map.get s) f.same ∙ g) (ap (Map.get r) f.same ∙ g')
      ]
    ];
  }

-- What an allocation does: the tenant has the uid it is given, every other tenant keeps what it had,
-- and the allocator stays valid; or there is no uid left, and the tenant has none.
pub record IsAllocated (t : TenantId) (a : UidAllocator) (raw : ℕ) (b : UidAllocator) : Type 0 where
  pub valid : IsValid b
  pub mine : Map.get t b.assigned ≡ some raw
  pub others : (s : TenantId) → (t ≡ s → ⊥) → Map.get s b.assigned ≡ Map.get s a.assigned

abbrev pub AllocatePost : TenantId → UidAllocator → Outcome UidError (ℕ × UidAllocator) → Type 0
AllocatePost t a (ok (raw, b)) = IsAllocated t a raw b
AllocatePost t a (err e) = (e ≡ exhausted) × IsExhausted a × (Map.get t a.assigned ≡ none)
AllocatePost t a panic = ⊥

assign_post :
    (t : TenantId) (a : UidAllocator) (r : Outcome UidError (ℕ × UidAllocator))
    → Map.get t a.assigned ≡ none
    → FreshPost a r
    → AllocatePost t a (r >>= λ p. ok (assign t p))
assign_post t a (ok (raw, b)) new f = record {
  valid = assign-IsValid t raw a b f;
  mine = unfold assign in get-insert_self t raw b.assigned;
  others = λ s ne. unfold assign in get-insert_ne t s raw b.assigned ne ∙ ap (Map.get s) f.same;
}
assign_post t a (err e) new (x, full) = (x, full, new)
assign_post t a panic new f = f

allocate_for_post :
    (t : TenantId) (found : Option ℕ) (a : UidAllocator)
    → Map.get t a.assigned ≡ found
    → IsValid a
    → AllocatePost t a (allocate_for t found a)
unfolding allocate_for
allocate_for_post t (some raw) a e v = record { valid = v; mine = e; others = λ s _. refl }
allocate_for_post t none a e v = assign_post t a (fresh a) e (fresh_lem a v)

-- From a valid allocator, `allocate` either gives the tenant a uid and changes no other tenant's, and
-- the allocator stays valid, or fails because the tenant has none, none is free and all are in use.
pub allocate_post : (t : TenantId) (a : UidAllocator) → IsValid a → AllocatePost t a (allocate t a)
unfolding allocate
allocate_post t a v = allocate_for_post t (Map.get t a.assigned) a refl v

-- A tenant that has a uid is given the same again, and nothing changes.
pub allocate_stable :
    (t : TenantId) (a b : UidAllocator) (raw : ℕ)
    → IsValid a
    → allocate t a ≡ ok (raw, b)
    → allocate t b ≡ ok (raw, b)
allocate_stable t a b raw v h =
    let post : IsAllocated t a raw b = subst (AllocatePost t a) h (allocate_post t a v) in
    unfold allocate allocate_for in rw post.mine

module _ (t : TenantId) (raw : ℕ) (a : UidAllocator) (v : IsValid a)
    (used : Map.get t a.assigned ≡ some raw) where
  -- The uids of the map without `t`.
  removed_cases :
      (s : TenantId) (u : ℕ)
      → Map.get s (Map.remove t a.assigned) ≡ some u
      → (t ≡ s → ⊥) × (Map.get s a.assigned ≡ some u)
  removed_cases s u h = elim (Bool-cases (t == s)) [
    | inl e ↦ cc (rw (get-remove t s a.assigned, e) at h)
    | inr e ↦ (λ p. cc (e, (tenant_id_eq.beq_iff t s).1 p), rw (get-remove t s a.assigned, e) at h)
  ]

  release_uid-IsValid : IsValid (release_uid t (some raw) a)
  unfolding release_uid
  release_uid-IsValid = record {
    capped = v.capped;
    next_in = v.next_in;
    free_in = λ u m. elim m [ inl e ↦ rw e (v.used_in t raw used) | inr m' ↦ v.free_in u m' ];
    free_distinct = (v.used_not_free t raw used, v.free_distinct);
    used_in = λ s u h. v.used_in s u (removed_cases s u h).1;
    used_not_free = λ s u h m. elim m [
      | inl e ↦
          (removed_cases s u h).0 (v.used_once t s raw used ((removed_cases s u h).1 ∙ ap some e))
      | inr m' ↦ v.used_not_free s u (removed_cases s u h).1 m'
    ];
    used_once = λ s r u h k. v.used_once s r u (removed_cases s u h).1 (removed_cases r u k).1;
  }

release_for-IsValid :
    (t : TenantId) (found : Option ℕ) (a : UidAllocator)
    → Map.get t a.assigned ≡ found
    → IsValid a
    → IsValid (release_uid t found a)
release_for-IsValid t none a e v = unfold release_uid in v
release_for-IsValid t (some raw) a e v = release_uid-IsValid t raw a v e

pub release-IsValid : (t : TenantId) (a : UidAllocator) → IsValid a → IsValid (release t a)
unfolding release
release-IsValid t a v = release_for-IsValid t (Map.get t a.assigned) a refl v

-- The uid of a tenant that is released goes to the next tenant that has none.
pub release_recycles :
    (t s : TenantId) (raw : ℕ) (a : UidAllocator)
    → Map.get t a.assigned ≡ some raw
    → Map.get s (release t a).assigned ≡ none
    → (b : UidAllocator) × (allocate s (release t a) ≡ ok (raw, b))
release_recycles t s raw a used new =
    let freed : UidAllocator = record a {
      assigned = Map.remove t a.assigned;
      free = raw ∷ a.free;
    } in
    let e : release t a ≡ freed = unfold release release_uid in rw used in
    let new' : Map.get s freed.assigned ≡ none = rw e at new in
    (
      (assign s (raw, record freed { free = a.free })).1,
      rw e (unfold allocate allocate_for fresh fresh_from assign in rw new'),
    )

after-IsValid :
    (t : TenantId) (a : UidAllocator) (r : Outcome UidError (ℕ × UidAllocator))
    → IsValid a
    → AllocatePost t a r
    → IsValid (after a r)
unfolding after
after-IsValid t a (ok (raw, b)) v p = p.valid
after-IsValid t a (err e) v p = v
after-IsValid t a panic v p = v

serve-IsValid :
    (a : UidAllocator) (requests : List Request) → IsValid a → IsValid (serve a requests)
unfolding serve
serve-IsValid a [] v = v
serve-IsValid a (allocate_to t ∷ rest) v =
    serve-IsValid (after a (allocate t a)) rest
      (after-IsValid t a (allocate t a) v (allocate_post t a v))
serve-IsValid a (release_of t ∷ rest) v = serve-IsValid (release t a) rest (release-IsValid t a v)

-- After any history of allocations and releases from a new allocator, two tenants that have the same
-- uid are the same tenant, and every uid in use lies from `UID_BASE` up to below `UID_SOFT_CAP`.
pub uids_apart :
    (bound : ℕ) (a : UidAllocator) (requests : List Request) (s t : TenantId) (u : ℕ)
    → new (some bound) ≡ ok a
    → Map.get s (serve a requests).assigned ≡ some u
    → Map.get t (serve a requests).assigned ≡ some u
    → (s ≡ t) × (uid_base ≤ u) × (u < uid_soft_cap)
uids_apart bound a requests s t u made hs ht =
    let v = serve-IsValid a requests (new-IsValid (some bound) a made) in
    (
      v.used_once s t u hs ht,
      (v.used_in s u hs).0,
      omega (arith, v.used_in s u hs, v.next_in, v.capped),
    )
