-- ===== src/Processing/Transitions.antt =====
-- The state machine of a processing job (apps/worker/src/processing/job-state-machine.ts), and the
-- statuses that a worker skips and a cancellation takes.
use lex_os.Prelude.{◌≡◌, refl, ◌↔◌, true, false, arith}
use lex_os.Processing.Status.{JobStatus, can_transition, is_terminal}
use lex_os.Processing.Settle.{is_cancellable}

-- The statuses from which no transition is allowed are those that a claim skips, and those from
-- which a job can be cancelled are those that `cancel` does not turn down: no status is both.
pub terminal-can_transition :
    (from : JobStatus)
    → ((is_terminal from ≡ true) ↔ ((to : JobStatus) → can_transition from to ≡ false))
      × ((is_cancellable from ≡ true) ↔ (can_transition from JobStatus.cancelled ≡ true))
unfolding can_transition
terminal-can_transition JobStatus.queued =
    ((λ h. absurd (cc), λ h. absurd (cc (h JobStatus.processing))), ground arith)
terminal-can_transition JobStatus.processing =
    ((λ h. absurd (cc), λ h. absurd (cc (h JobStatus.failed))), ground arith)
terminal-can_transition JobStatus.retrying =
    ((λ h. absurd (cc), λ h. absurd (cc (h JobStatus.processing))), ground arith)
terminal-can_transition JobStatus.completed = ((λ h to. refl, λ h. refl), ground arith)
terminal-can_transition JobStatus.failed = ((λ h to. refl, λ h. refl), ground arith)
terminal-can_transition JobStatus.cancelled = ((λ h to. refl, λ h. refl), ground arith)
