-- ===== src/Domain/Task.antt =====
-- The aggregate root of domain/models/task.py. The times of `started_at` and `completed_at`, which
-- the source stores as ISO texts, are the readings of the clock that these texts show.
pub mod Calls
pub mod Retries
pub mod Ownership
pub mod Terminal
use multi_cloud_ai_orchestra.Base.{
  ℕ, ◌+◌, String, Bool, not, ◌&&◌, List, [], ◌∷◌, Option, none, some, Method, ok, gets, modify,
  raise_if, ◌>>=◌, ◌>>◌, any, leb, ltb, Json,
}
use multi_cloud_ai_orchestra.Base.Dict.{Dict}
use multi_cloud_ai_orchestra.Domain.Status.{
  TaskStatus, is_task_status, task_valid_transitions, queued, acquired, running, succeeded,
  retrying, timed_out,
}
use multi_cloud_ai_orchestra.Domain.Cloud.{CloudProviderType}
use multi_cloud_ai_orchestra.Domain.Entity
use multi_cloud_ai_orchestra.Domain.Entity.{Ambient, Entity, Live, now, after_now}
use multi_cloud_ai_orchestra.Domain.Errors.{Error, invalid_task_transition, max_retries_exceeded}

pub record Task : Type 0 where
  pub entity : Entity
  pub open entity use *
  pub deployment_id : String
  pub step_id : String
  pub name : String
  pub description : String
  pub status : TaskStatus
  pub provider : CloudProviderType
  pub terraform_action : String
  pub worker_id : Option String
  pub idempotency_key : String
  pub attempt_number : ℕ
  pub max_attempts : ℕ
  pub timeout_seconds : ℕ
  pub input_data : Dict Json
  pub output_data : Dict Json
  pub error_message : String
  pub started_at : Option ℕ
  pub completed_at : Option ℕ

abbrev pub Action : Type 0
Action = Method Error (Live Task) (Unit {0})

unfoldable pub touch : Action
unfolding Entity.touch
touch s =
    let (entity, a) = Entity.touch s.self.entity s.ambient in
    (ok tt, record { self = record s.self { entity = entity }; ambient = a })

-- Task._transition_to
unfoldable pub transition_to : TaskStatus → Action
transition_to new_status = do
  status ← gets (λ s. s.self.status)
  raise_if (not (any (is_task_status new_status) (task_valid_transitions status)))
      (invalid_task_transition status new_status)
  modify (λ s. record s { self = record s.self { status = new_status } })
  touch

-- `self.completed_at = utc_now().isoformat()`
unfoldable pub stamp_completed : Action
stamp_completed s = (
  ok tt,
  record {
    self = record s.self { completed_at = some (now s.ambient) };
    ambient = after_now s.ambient;
  },
)

-- `self.started_at = utc_now().isoformat()`
unfoldable pub stamp_started : Action
stamp_started s = (
  ok tt,
  record {
    self = record s.self { started_at = some (now s.ambient) };
    ambient = after_now s.ambient;
  },
)

unfoldable pub enqueue : Action
enqueue = transition_to queued

unfoldable pub acquire : String → Action
acquire worker_id = do
  transition_to acquired
  modify (λ s. record s { self = record s.self { worker_id = some worker_id } })

unfoldable pub start : Action
start = do transition_to running; stamp_started

-- `if output: self.output_data = output`: neither None nor an empty dict is stored.
unfoldable pub kept_output : Option (Dict Json) → Dict Json → Dict Json
kept_output none old = old
kept_output (some []) old = old
kept_output (some (entry ∷ output)) old = entry ∷ output

unfoldable pub succeed : Option (Dict Json) → Action
succeed output = do
  modify (λ s. record s {
    self = record s.self { output_data = kept_output output s.self.output_data };
  })
  transition_to succeeded
  stamp_completed

unfoldable pub fail : String → Action
fail message = do
  modify (λ s. record s { self = record s.self { error_message = message } })
  transition_to TaskStatus.failed
  stamp_completed

unfoldable pub retry : Action
retry = do
  t ← gets (λ s. s.self)
  raise_if (leb t.max_attempts t.attempt_number) (max_retries_exceeded t.id t.max_attempts)
  transition_to retrying
  modify (λ s. record s {
    self = record s.self {
      attempt_number = s.self.attempt_number + 1;
      worker_id = none;
      error_message = "";
    };
  })
  transition_to queued

unfoldable pub timeout : Action
timeout = do transition_to timed_out; stamp_completed

unfoldable pub cancel : Action
cancel = do transition_to TaskStatus.cancelled; stamp_completed

-- Opens every method, down to the object.
unfoldable pub methods : Unit {0}
unfolding transition_to touch stamp_completed stamp_started enqueue acquire start succeed fail retry
    timeout cancel
methods = tt

-- Task.is_terminal
unfoldable pub is_terminal : Task → Bool
is_terminal t = any (is_task_status t.status) (succeeded ∷ TaskStatus.cancelled ∷ [])

-- Task.can_retry
unfoldable pub can_retry : Task → Bool
can_retry t =
    any (is_task_status t.status) (TaskStatus.failed ∷ timed_out ∷ [])
    && ltb t.attempt_number t.max_attempts
