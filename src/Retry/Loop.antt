-- ===== src/Retry/Loop.antt =====
-- How often the retry loop of crates/worker/src/main.rs builds, and what it reports.
use kubernix.Prelude.{
  ℕ, zero, suc, ◌+◌, ◌<◌, ◌≤◌, ◌≡◌, refl, sym, ◌∙◌, ap, [], Bytes, Bool, true, false, Option, some,
  Bool-cases, Option-cases, inl, inr, ◌⊎◌, arith, some-injective,
}
use kubernix.Retry.{
  FailureKind, out_of_memory_kind, disk_full_kind, guest_hang_kind, JobOutcome, completed, failed,
  GuestFailureStatus, no_failure, disk_full, out_of_memory, RetryAction, give_up, retry_enospc_wipe,
  retry_oom_local, escalate_oom, terminal_oom, terminal_enospc, next_action, terminal_failure,
  RunResult, finished, guest_hung, Observed, Setting, Retries, no_retries, Next, again, settled,
  escalated, after_hang, after_action, after_failure, after_run, round, retry_loop,
}

flag_left : Bool → ℕ
flag_left true = 0
flag_left false = 1

-- How many retries are left.
left : Retries → ℕ
left r =
    flag_left r.enospc_retried + (flag_left r.oom_local_retried + flag_left r.guest_hang_retried)

after_hang-left :
    (cfg : Setting) (seen : Observed) (r r' : Retries)
    → after_hang cfg seen r ≡ again r'
    → left r ≡ suc (left r')
unfolding after_hang left flag_left
after_hang-left cfg seen r r' h = ground arith

after_failure-left :
    (cfg : Setting) (outcome : JobOutcome) (log : Bytes) (seen : Observed) (r r' : Retries)
    → after_failure cfg outcome log seen r ≡ again r'
    → left r ≡ suc (left r')
unfolding after_failure after_action next_action left flag_left
after_failure-left cfg outcome log seen r r' h = ground arith

after_run-left :
    (cfg : Setting) (run : RunResult) (seen : Observed) (r r' : Retries)
    → after_run cfg run seen r ≡ again r'
    → left r ≡ suc (left r')
unfolding after_run
after_run-left cfg guest_hung seen r r' h = after_hang-left cfg seen r r' h
after_run-left cfg (finished (completed paths) log) seen r r' h = cc
after_run-left cfg (finished (failed message kind) log) seen r r' h =
    after_failure-left cfg (failed message kind) log seen r r' h

-- Another round uses one of the retries that are left.
round-left :
    (cfg : Setting) (seen : Observed) (r r' : Retries)
    → round cfg seen r ≡ again r'
    → left r ≡ suc (left r')
unfolding round
round-left cfg seen r r' h = after_run-left cfg seen.run seen r r' h

-- What a round that ends the loop says of what it observed.
pub data Explains (cfg : Setting) (seen : Observed) : JobOutcome → Bytes → Type 0 where
  -- the build's own outcome
  as_built :
      {outcome : JobOutcome} {log : Bytes}
      → seen.run ≡ finished outcome log
      → Explains cfg seen outcome log
  -- the guest stopped answering
  hung :
      seen.run ≡ guest_hung → Explains cfg seen (failed cfg.hang_message (some guest_hang_kind)) []
  -- the build failed, and the guest says that its disk is full
  full :
      {message log : Bytes} {kind : Option FailureKind}
      → seen.run ≡ finished (failed message kind) log
      → seen.status ≡ some disk_full
      → Explains cfg seen (failed message (some disk_full_kind)) log
  -- the build failed, and the guest says that it ran out of memory
  exhausted :
      {message log : Bytes} {kind : Option FailureKind} (builder_victim : Bool)
      → seen.run ≡ finished (failed message kind) log
      → seen.status ≡ some (out_of_memory builder_victim)
      → Explains cfg seen (failed message (some out_of_memory_kind)) log

after_hang-settled :
    (cfg : Setting) (seen : Observed) (r : Retries) (outcome : JobOutcome) (log : Bytes)
    → after_hang cfg seen r ≡ settled outcome log
    → (outcome ≡ failed cfg.hang_message (some guest_hang_kind)) × (log ≡ [])
unfolding after_hang terminal_failure
after_hang-settled cfg seen r outcome log h = ground arith

-- How a failed build ends the loop.
after_action-settled :
    (action : RetryAction) (message : Bytes) (kind : Option FailureKind) (log : Bytes)
    (seen : Observed) (r : Retries) (outcome : JobOutcome) (log' : Bytes)
    → after_action action (failed message kind) log seen r ≡ settled outcome log'
    → (log' ≡ log)
      × ((outcome ≡ failed message kind)
          ⊎ (((action ≡ terminal_enospc) × (outcome ≡ failed message (some disk_full_kind)))
              ⊎ ((action ≡ terminal_oom) × (outcome ≡ failed message (some out_of_memory_kind)))))
unfolding after_action terminal_failure
after_action-settled give_up message kind log seen r outcome log' h = ground arith
after_action-settled terminal_enospc message kind log seen r outcome log' h = ground arith
after_action-settled terminal_oom message kind log seen r outcome log' h = ground arith
after_action-settled retry_enospc_wipe message kind log seen r outcome log' h = ground arith
after_action-settled retry_oom_local message kind log seen r outcome log' h = ground arith
after_action-settled escalate_oom message kind log seen r outcome log' h = cc

enospc_status :
    (status : GuestFailureStatus) (fresh big e o : Bool)
    → next_action status fresh big e o ≡ terminal_enospc
    → status ≡ disk_full
unfolding next_action
enospc_status no_failure fresh big e o h = cc
enospc_status disk_full fresh big e o h = refl
enospc_status (out_of_memory false) fresh big e o h = ground arith
enospc_status (out_of_memory true) fresh big e o h = ground arith

oom_status :
    (status : GuestFailureStatus) (fresh big e o : Bool)
    → next_action status fresh big e o ≡ terminal_oom
    → (victim : Bool) × (status ≡ out_of_memory victim)
unfolding next_action
oom_status no_failure fresh big e o h = cc
oom_status disk_full fresh big e o h = ground arith
oom_status (out_of_memory b) fresh big e o h = (b, refl)

as_built_settled :
    {cfg : Setting} {seen : Observed} {a b : JobOutcome} {log log' : Bytes}
    → seen.run ≡ finished a log
    → settled a log ≡ settled b log'
    → Explains cfg seen b log'
as_built_settled ran h = as_built (ran ∙ cc)

after_failure-Explains :
    (cfg : Setting) (message : Bytes) (kind : Option FailureKind) (log : Bytes) (seen : Observed)
    (r : Retries) (outcome : JobOutcome) (log' : Bytes)
    → seen.run ≡ finished (failed message kind) log
    → after_failure cfg (failed message kind) log seen r ≡ settled outcome log'
    → Explains cfg seen outcome log'
unfolding after_failure
after_failure-Explains cfg message kind log seen r outcome log' ran h =
    elim (Bool-cases cfg.has_vm) [
      | inr e ↦ as_built_settled ran (rw e at h)
      | inl e ↦ elim (Option-cases seen.status) [
        | inl f ↦ as_built_settled ran (rw f at (rw e at h))
        | inr (status, f) ↦
            let (same, cause) =
              after_action-settled _ message kind log seen r outcome log' (rw f at (rw e at h)) in
            elim cause [
              | inl o ↦ rw (o, same) (as_built ran)
              | inr (inl (a, o)) ↦
                  rw (o, same) (full ran (f ∙ ap some (enospc_status status _ _ _ _ a)))
              | inr (inr (a, o)) ↦
                  let (victim, s) = oom_status status _ _ _ _ a in
                  rw (o, same) (exhausted victim ran (f ∙ ap some s))
            ]
      ]
    ]

after_run-Explains :
    (cfg : Setting) (run : RunResult) (seen : Observed) (r : Retries) (outcome : JobOutcome)
    (log : Bytes)
    → seen.run ≡ run
    → after_run cfg run seen r ≡ settled outcome log
    → Explains cfg seen outcome log
unfolding after_run
after_run-Explains cfg guest_hung seen r outcome log ran h =
    let (o, l) = after_hang-settled cfg seen r outcome log h in rw (o, l) (hung ran)
after_run-Explains cfg (finished (completed paths) log) seen r outcome log' ran h =
    as_built_settled ran h
after_run-Explains cfg (finished (failed message kind) log) seen r outcome log' ran h =
    after_failure-Explains cfg message kind log seen r outcome log' ran h

Next-cases :
    (next : Next)
    → ((r : Retries) × (next ≡ again r))
      ⊎ (((outcome : JobOutcome) × (log : Bytes) × (next ≡ settled outcome log))
          ⊎ (next ≡ escalated))
Next-cases (again r) = inl (r, refl)
Next-cases (settled outcome log) = inr (inl (outcome, log, refl))
Next-cases escalated = inr (inr refl)

leaves :
    (fuel : ℕ) (cfg : Setting) (seen : ℕ → Observed) (n : ℕ) (r : Retries)
    → left r < fuel
    → (last : ℕ) × (next : Next) × (retry_loop fuel cfg seen n r ≡ some (last, next))
      × (last ≤ n + left r)
unfolding retry_loop
leaves zero cfg seen n r h = absurd (omega arith)
leaves (suc fuel) cfg seen n r h = elim (Next-cases (round cfg (seen n) r)) [
  | inl (r', e) ↦
      let less = round-left cfg (seen n) r r' e in
      let (last, next, found, bound) = leaves fuel cfg seen (suc n) r' (omega arith) in
      (last, next, rw (e, retry_loop) found, omega arith)
  | inr (inl (outcome, log, e)) ↦ (n, settled outcome log, rw (e, retry_loop) refl, omega arith)
  | inr (inr e) ↦ (n, escalated, rw (e, retry_loop) refl, omega arith)
]

-- Started without retries behind it, the loop leaves in one of the rounds 0 to 3, whatever it
-- observes: a job is built at most four times.
pub retry_loop-ends :
    (fuel : ℕ) (cfg : Setting) (seen : ℕ → Observed)
    → 3 < fuel
    → (last : ℕ) × (next : Next) × (retry_loop fuel cfg seen 0 no_retries ≡ some (last, next))
      × (last ≤ 3)
unfolding left flag_left
retry_loop-ends fuel cfg seen h = leaves fuel cfg seen 0 no_retries h

-- What the loop reports is what the round it leaves in explains: the outcome of that round's build,
-- a hang that it saw, or that build's failure with the exhaustion that the guest reported. So a
-- success is never made up, and no cause of failure that the guest does not confirm.
pub retry_loop-Explains :
    (fuel : ℕ) (cfg : Setting) (seen : ℕ → Observed) (n : ℕ) (r : Retries) (last : ℕ)
    (outcome : JobOutcome) (log : Bytes)
    → retry_loop fuel cfg seen n r ≡ some (last, settled outcome log)
    → Explains cfg (seen last) outcome log
unfolding retry_loop round
retry_loop-Explains zero cfg seen n r last outcome log h = cc
retry_loop-Explains (suc fuel) cfg seen n r last outcome log h =
    elim (Next-cases (round cfg (seen n) r)) [
      | inl (r', e) ↦
          retry_loop-Explains fuel cfg seen (suc n) r' last outcome log (rw (e, retry_loop) at h)
      | inr (inl (o, l, e)) ↦
          let q : some (n, settled o l) ≡ some (last, settled outcome log) =
            rw (e, retry_loop) at h in
          let same : n ≡ last = ap (λ p. p.0) (some-injective q) in
          let what : settled o l ≡ settled outcome log = ap (λ p. p.1) (some-injective q) in
          rw (sym same) (after_run-Explains cfg (seen n).run (seen n) r outcome log refl (e ∙ what))
      | inr (inr e) ↦ cc (rw (e, retry_loop) at h)
    ]
