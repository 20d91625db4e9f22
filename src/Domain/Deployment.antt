-- ===== src/Domain/Deployment.antt =====
-- The aggregate root of domain/models/deployment.py. A method acts on the object and on the
-- outside world, and hands both back when it raises, as they are at that point.
pub mod Calls
pub mod Trace
pub mod Gate
pub mod Atomic
pub mod Terminal
use multi_cloud_ai_orchestra.Base.{
  ℕ, ◌+◌, String, Bool, true, false, not, ◌&&◌, List, [], ◌∷◌, ◌++◌, Option, none, some, Method, ok,
  pure, gets, modify, skip, raise_if, ◌>>=◌, ◌>>◌, any, fstring, length, if◌then◌else◌,
}
use multi_cloud_ai_orchestra.Domain.Status.{
  DeploymentStatus, DeploymentStatus-discrete, is_status, valid_transitions, pending, planning,
  planned, awaiting_approval, approved, executing, verifying, completed, failed, rolling_back,
  rolled_back, cancelled,
}
use multi_cloud_ai_orchestra.Domain.Entity
use multi_cloud_ai_orchestra.Domain.Entity.{Ambient, Entity, Live, new_entity}
use multi_cloud_ai_orchestra.Domain.Events.{
  EventBody, DomainEvent, new_event, deployment_plan_generated, deployment_approved,
  deployment_started, deployment_completed, deployment_failed, deployment_rollback_started,
  deployment_rollback_completed,
}
use multi_cloud_ai_orchestra.Domain.Errors.{Error, invalid_state_transition}
use multi_cloud_ai_orchestra.Domain.Plan.{DeploymentIntent, ExecutionPlan, step_count, StepResult}

pub record Deployment : Type 0 where
  pub entity : Entity
  pub open entity use *
  pub domain_events : List DomainEvent
  pub name : String
  pub intent : DeploymentIntent
  pub status : DeploymentStatus
  pub plan : Option ExecutionPlan
  pub step_results : List StepResult
  pub initiated_by : String
  pub tenant_id : String
  pub error_message : String
  pub rollback_deployment_id : Option String

abbrev pub Action : Type 0
Action = Method Error (Live Deployment) (Unit {0})

-- Deployment(name=..., intent=..., initiated_by=..., tenant_id=...)
unfoldable pub new_deployment :
    String → DeploymentIntent → String → String → Ambient → Live Deployment
unfolding new_entity
new_deployment name intent initiated_by tenant_id a =
    let (entity, a') = new_entity a in
    record {
      self = record {
        entity = entity;
        domain_events = [];
        name = name;
        intent = intent;
        status = pending;
        plan = none;
        step_results = [];
        initiated_by = initiated_by;
        tenant_id = tenant_id;
        error_message = "";
        rollback_deployment_id = none;
      };
      ambient = a';
    }

-- DomainEntity.touch
unfoldable pub touch : Action
unfolding Entity.touch
touch s =
    let (entity, a) = Entity.touch s.self.entity s.ambient in
    (ok tt, record { self = record s.self { entity = entity }; ambient = a })

-- AggregateRoot.add_event, on an event of this deployment that is made at the call.
unfoldable pub add_event : (String → EventBody) → Action
unfolding new_event
add_event body s =
    let (event, a) = new_event (body s.self.id) s.self.id s.ambient in
    (
      ok tt,
      record {
        self = record s.self { domain_events = s.self.domain_events ++ event ∷ [] };
        ambient = a;
      },
    )

-- AggregateRoot.collect_events
unfoldable pub collect_events : Method Error (Live Deployment) (List DomainEvent)
collect_events s =
    (ok s.self.domain_events, record s { self = record s.self { domain_events = [] } })

-- Deployment._transition_to
unfoldable pub transition_to : DeploymentStatus → Action
transition_to new_status = do
  status ← gets (λ s. s.self.status)
  raise_if (not (any (is_status new_status) (valid_transitions status)))
      (invalid_state_transition status new_status)
  modify (λ s. record s { self = record s.self { status = new_status } })
  touch

unfoldable pub start_planning : Action
start_planning = transition_to planning

unfoldable pub approve : String → Action
approve approved_by = do
  transition_to approved
  add_event (λ id. deployment_approved id approved_by)

unfoldable pub set_plan : ExecutionPlan → Action
set_plan plan = do
  modify (λ s. record s { self = record s.self { plan = some plan } })
  transition_to planned
  add_event (λ id. deployment_plan_generated id plan.plan_id (step_count plan))
  auto ← gets (λ s. s.self.intent.auto_approve)
  if auto then approve "auto" else transition_to awaiting_approval

unfoldable pub start_execution : Action
start_execution = do transition_to executing; add_event deployment_started

unfoldable pub fail : String → Action
fail message = do
  modify (λ s. record s { self = record s.self { error_message = message } })
  transition_to failed
  add_event (λ id. deployment_failed id message)

unfoldable pub record_step_result : StepResult → Action
record_step_result result = do
  modify
      (λ s. record s { self = record s.self { step_results = s.self.step_results ++ result ∷ [] } })
  touch
  rollback ← gets (λ s. s.self.intent.rollback_on_failure)
  if not result.success && rollback
      then fail (fstring ("Step " ∷ result.step_id ∷ " failed: " ∷ result.error_message ∷ []))
      else skip

unfoldable pub start_verification : Action
start_verification = transition_to verifying

unfoldable pub complete : Action
complete = do transition_to completed; add_event deployment_completed

unfoldable pub start_rollback : Action
start_rollback = do transition_to rolling_back; add_event deployment_rollback_started

unfoldable pub complete_rollback : Action
complete_rollback = do transition_to rolled_back; add_event deployment_rollback_completed

unfoldable pub cancel : Action
cancel = transition_to cancelled

-- Opens every method, down to the object.
unfoldable pub methods : Unit {0}
unfolding transition_to touch add_event start_planning approve set_plan start_execution fail
    record_step_result start_verification complete start_rollback complete_rollback cancel
methods = tt

-- Deployment.is_terminal
unfoldable pub is_terminal : Deployment → Bool
is_terminal d = any (is_status d.status) (completed ∷ cancelled ∷ rolled_back ∷ [])
