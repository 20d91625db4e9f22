-- ===== src/Domain/Task/Retries.antt =====
-- Retries of a task, and `can_retry`.
use multi_cloud_ai_orchestra.Base.{
  refl, ◌∙◌, ℕ, ◌+◌, ◌≤◌, ◌≡◌, ◌↔◌, true, List, [], ◌∷◌, arith, ok, raised, none, some,
}
use multi_cloud_ai_orchestra.Domain.Status.{task_valid_transitions}
use multi_cloud_ai_orchestra.Domain.Entity.{Live}
use multi_cloud_ai_orchestra.Domain.Task
use multi_cloud_ai_orchestra.Domain.Task.{Task, methods, can_retry}
use multi_cloud_ai_orchestra.Domain.Task.Calls.{Call, perform, after, run}

-- `retry` returns exactly when `can_retry` holds.
pub retry-can_retry : (s : Live Task) → ((Task.retry s).0 ≡ ok tt) ↔ (can_retry s.self ≡ true)
unfolding methods task_valid_transitions can_retry
retry-can_retry s = ground arith

-- 1 if this call is a `retry` that returns.
abbrev retried : Call → Live Task → ℕ
retried Call.retry s = elim (Task.retry s).0 [ ok _ ↦ 1 | raised _ ↦ 0 ]
retried _ s = 0

-- How many calls of `retry` return in a run.
unfoldable pub retries : List Call → Live Task → ℕ
retries [] s = 0
retries (c ∷ cs) s = retried c s + retries cs (after c s)

after-attempt :
    (c : Call) (s : Live Task)
    → s.self.attempt_number ≤ s.self.max_attempts
    → ((after c s).self.attempt_number ≡ s.self.attempt_number + retried c s)
      × ((after c s).self.attempt_number ≤ (after c s).self.max_attempts)
      × ((after c s).self.max_attempts ≡ s.self.max_attempts)
unfolding perform methods task_valid_transitions
after-attempt Call.retry s h = ground arith
after-attempt (Call.succeed none) s h = ground arith
after-attempt (Call.succeed (some [])) s h = ground arith
after-attempt (Call.succeed (some (e ∷ es))) s h = ground arith
after-attempt _ s h = ground arith

-- In any sequence of calls on a task whose attempt number is within its maximum, each `retry`
-- that returns uses up one attempt, no other call changes the number, and the maximum is kept, so
-- no more than `max_attempts - attempt_number` calls of `retry` return.
pub run-retries :
    (cs : List Call) (s : Live Task)
    → s.self.attempt_number ≤ s.self.max_attempts
    → ((run cs s).self.attempt_number ≡ s.self.attempt_number + retries cs s)
      × (s.self.attempt_number + retries cs s ≤ s.self.max_attempts)
      × ((run cs s).self.max_attempts ≡ s.self.max_attempts)
unfolding run retries
run-retries [] s h = (omega arith, omega arith, refl)
run-retries (c ∷ cs) s h =
    let step = after-attempt c s h in
    let rest = run-retries cs (after c s) step.1 in
    (omega (arith, step, rest.0), omega (arith, step, rest.1), rest.2 ∙ step.2)
