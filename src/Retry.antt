-- ===== src/Retry.antt =====
-- The retry loop of a job, of crates/worker/src/main.rs. The guest, the build and the reboots are
-- outside of the loop: each round of it observes what they did.
pub mod Loop
use kubernix.Prelude.{
  ℕ, zero, suc, List, [], Bytes, Bool, true, false, Option, none, some, ◌||◌, if◌then◌else◌,
}
use kubernix.StorePath.{StorePath}

pub data FailureKind : Type 0 where
  out_of_memory_kind disk_full_kind guest_hang_kind : FailureKind

pub data JobOutcome : Type 0 where
  completed : List StorePath → JobOutcome
  failed : Bytes → Option FailureKind → JobOutcome

-- `GuestFailureStatus` of crates/guest-protocol/src/types.rs; the flag is `builder_victim`.
pub data GuestFailureStatus : Type 0 where
  no_failure disk_full : GuestFailureStatus
  out_of_memory : Bool → GuestFailureStatus

pub data RetryAction : Type 0 where
  give_up retry_enospc_wipe retry_oom_local escalate_oom terminal_oom terminal_enospc : RetryAction

unfoldable pub next_action : GuestFailureStatus → Bool → Bool → Bool → Bool → RetryAction
next_action no_failure fresh big enospc_retried oom_local_retried = give_up
next_action disk_full fresh big enospc_retried oom_local_retried =
    if enospc_retried || fresh then terminal_enospc else retry_enospc_wipe
next_action (out_of_memory false) fresh big enospc_retried oom_local_retried =
    if oom_local_retried then terminal_oom else retry_oom_local
next_action (out_of_memory true) fresh big enospc_retried oom_local_retried =
    if big then terminal_oom else escalate_oom

unfoldable pub terminal_failure : JobOutcome → FailureKind → JobOutcome
terminal_failure (failed message kind) new = failed message (some new)
terminal_failure (completed paths) new = completed paths

pub data RunResult : Type 0 where
  finished : JobOutcome → Bytes → RunResult
  guest_hung : RunResult

-- What a round of the loop observes: how the build ends, what the guest answers to `STATUS?` (`none`
-- for an error), and whether the reboot, if there is one, and the new connection succeed.
pub record Observed : Type 0 where
  pub run : RunResult
  pub status : Option GuestFailureStatus
  pub reconnects : Bool

-- What the loop does not change: whether the job has a VM, whether its boot was fresh, whether the
-- worker is of the class big-parallel, and the message of a hang.
pub record Setting : Type 0 where
  pub has_vm : Bool
  pub original_boot_was_fresh : Bool
  pub already_on_big_parallel : Bool
  pub hang_message : Bytes

pub record Retries : Type 0 where
  pub enospc_retried : Bool
  pub oom_local_retried : Bool
  pub guest_hang_retried : Bool

abbrev pub no_retries : Retries
no_retries = record {
  enospc_retried = false;
  oom_local_retried = false;
  guest_hang_retried = false;
}

-- A round goes on with the next one, leaves the loop with `outcome` and `log`, or hands the job to
-- another worker.
pub data Next : Type 0 where
  again : Retries → Next
  settled : JobOutcome → Bytes → Next
  escalated : Next

-- The arm `GuestHung`
unfoldable pub after_hang : Setting → Observed → Retries → Next
unfolding terminal_failure
after_hang cfg seen r =
    let hang = settled (terminal_failure (failed cfg.hang_message none) guest_hang_kind) [] in
    if cfg.has_vm
    then (if r.guest_hang_retried
        then hang
        else if seen.reconnects
        then again (record r { guest_hang_retried = true })
        else hang)
    else hang

unfoldable pub after_action : RetryAction → JobOutcome → Bytes → Observed → Retries → Next
after_action give_up outcome log seen r = settled outcome log
after_action terminal_enospc outcome log seen r =
    settled (terminal_failure outcome disk_full_kind) log
after_action terminal_oom outcome log seen r =
    settled (terminal_failure outcome out_of_memory_kind) log
after_action retry_enospc_wipe outcome log seen r =
    if seen.reconnects then again (record r { enospc_retried = true }) else settled outcome log
after_action retry_oom_local outcome log seen r =
    if seen.reconnects then again (record r { oom_local_retried = true }) else settled outcome log
after_action escalate_oom outcome log seen r = escalated

-- What follows a build that failed.
unfoldable pub after_failure : Setting → JobOutcome → Bytes → Observed → Retries → Next
after_failure cfg outcome log seen r =
    if cfg.has_vm
    then elim seen.status [
      | none ↦ settled outcome log
      | some status ↦
          after_action
            (next_action status cfg.original_boot_was_fresh cfg.already_on_big_parallel
              r.enospc_retried r.oom_local_retried)
            outcome log seen r
    ]
    else settled outcome log

unfoldable pub after_run : Setting → RunResult → Observed → Retries → Next
after_run cfg guest_hung seen r = after_hang cfg seen r
after_run cfg (finished (completed paths) log) seen r = settled (completed paths) log
after_run cfg (finished (failed message kind) log) seen r =
    after_failure cfg (failed message kind) log seen r

unfoldable pub round : Setting → Observed → Retries → Next
round cfg seen r = after_run cfg seen.run seen r

-- The loop on fuel: `seen n` is what the `n`th round observes. `none`: the fuel did not suffice.
unfoldable pub retry_loop : ℕ → Setting → (ℕ → Observed) → ℕ → Retries → Option (ℕ × Next)
retry_loop zero cfg seen n r = none
retry_loop (suc fuel) cfg seen n r = elim (round cfg (seen n) r) [
  | again r' ↦ retry_loop fuel cfg seen (suc n) r'
  | settled outcome log ↦ some (n, settled outcome log)
  | escalated ↦ some (n, escalated)
]
