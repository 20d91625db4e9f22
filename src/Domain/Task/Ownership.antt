-- ===== src/Domain/Task/Ownership.antt =====
-- Which worker holds a task, and which times it has.
use multi_cloud_ai_orchestra.Base.{
  ◌≡◌, ◌≢◌, Bool, true, false, Option, none, some, List, [], ◌∷◌, arith,
}
use multi_cloud_ai_orchestra.Domain.Status.{
  TaskStatus, task_valid_transitions, queued, acquired, running, succeeded, retrying, timed_out,
}
use multi_cloud_ai_orchestra.Domain.Entity.{Live}
use multi_cloud_ai_orchestra.Domain.Task.{Task, methods}
use multi_cloud_ai_orchestra.Domain.Task.Calls.{Call, perform, after, run}

abbrev pub is_waiting : TaskStatus → Bool
is_waiting TaskStatus.pending = true
is_waiting queued = true
is_waiting _ = false

abbrev pub is_held : TaskStatus → Bool
is_held acquired = true
is_held running = true
is_held succeeded = true
is_held _ = false

abbrev pub is_begun : TaskStatus → Bool
is_begun running = true
is_begun succeeded = true
is_begun _ = false

abbrev pub is_over : TaskStatus → Bool
is_over succeeded = true
is_over TaskStatus.failed = true
is_over TaskStatus.cancelled = true
is_over timed_out = true
is_over _ = false

abbrev pub is_set {ℓ} : {A : Type ℓ} → Option A → Bool
is_set none = false
is_set (some _) = true

pub record IsOwned (t : Task) : Type 0 where
  pub unheld : is_waiting t.status ≡ true → t.worker_id ≡ none
  pub held : is_held t.status ≡ true → is_set t.worker_id ≡ true
  pub begun : is_begun t.status ≡ true → is_set t.started_at ≡ true
  pub over : is_over t.status ≡ true → is_set t.completed_at ≡ true
  pub settled : t.status ≢ retrying

after-IsOwned : (c : Call) (s : Live Task) → IsOwned s.self → IsOwned (after c s).self
unfolding perform methods task_valid_transitions
after-IsOwned (Call.succeed none) s h = ground arith
after-IsOwned (Call.succeed (some [])) s h = ground arith
after-IsOwned (Call.succeed (some (e ∷ es))) s h = ground arith
after-IsOwned _ s h = ground arith

keeps-IsOwned : (cs : List Call) (s : Live Task) → IsOwned s.self → IsOwned (run cs s).self
unfolding run
keeps-IsOwned [] s h = h
keeps-IsOwned (c ∷ cs) s h = keeps-IsOwned cs (after c s) (after-IsOwned c s h)

pending-IsOwned : (t : Task) → t.status ≡ TaskStatus.pending → t.worker_id ≡ none → IsOwned t
pending-IsOwned t pending none_held = record {
  unheld = λ h. none_held;
  held = λ h. cc;
  begun = λ h. cc;
  over = λ h. cc;
  settled = λ h. cc;
}

-- Every sequence of method calls, raising ones included, keeps this invariant of a task that has it
-- at the start: a task that is pending or queued has no worker; one that is acquired, running or
-- succeeded has one; one that is running or succeeded has a start time; one that has succeeded,
-- failed, been cancelled or timed out has a completion time; and the task is not in RETRYING. A
-- task that is PENDING and has no worker, as a new one is by default, has the invariant.
pub run-IsOwned :
    (cs : List Call) (s new : Live Task)
    → IsOwned s.self
    → new.self.status ≡ TaskStatus.pending
    → new.self.worker_id ≡ none
    → IsOwned (run cs s).self × IsOwned (run cs new).self
run-IsOwned cs s new h pending unheld =
    (keeps-IsOwned cs s h, keeps-IsOwned cs new (pending-IsOwned new.self pending unheld))
