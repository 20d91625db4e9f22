-- ===== src/Domain/Deployment/Atomic.antt =====
-- What a raising method leaves behind.
use multi_cloud_ai_orchestra.Base.{
  ◌≡◌, Bool, true, false, not, ◌&&◌, String, [], ◌∷◌, ◌++◌, arith, ◌>>◌, some, inl, inr, Bool-cases,
  ok, raised, fstring, any, if◌then◌else◌,
}
use multi_cloud_ai_orchestra.Domain.Status.{
  DeploymentStatus, DeploymentStatus-discrete, valid_transitions, is_status, planning, planned,
  approved, executing, verifying, completed, failed, rolling_back, rolled_back, cancelled,
}
use multi_cloud_ai_orchestra.Domain.Entity.{Live}
use multi_cloud_ai_orchestra.Domain.Errors.{Error, invalid_state_transition}
use multi_cloud_ai_orchestra.Domain.Plan.{StepResult, ExecutionPlan}
use multi_cloud_ai_orchestra.Domain.Events.{
  EventBody, deployment_approved, deployment_started, deployment_completed,
  deployment_rollback_started, deployment_rollback_completed,
}
use multi_cloud_ai_orchestra.Domain.Deployment.{
  Deployment, methods, transition_to, touch, add_event, start_planning, approve, start_execution,
  start_verification, complete, start_rollback, complete_rollback, cancel,
}
use multi_cloud_ai_orchestra.Domain.Deployment.Calls.{Call, perform, after}

-- The status that a call asks for first.
abbrev pub target : Call → DeploymentStatus
target Call.start_planning = planning
target (Call.set_plan _) = planned
target (Call.approve _) = approved
target Call.start_execution = executing
target (Call.record_step_result _) = failed
target Call.start_verification = verifying
target Call.complete = completed
target (Call.fail _) = failed
target Call.start_rollback = rolling_back
target Call.complete_rollback = rolled_back
target Call.cancel = cancelled

abbrev pub is_record : Call → Bool
is_record (Call.record_step_result _) = true
is_record _ = false

-- Nothing but the plan and the error message of `t` differs from `s`.
pub record Untouched (s t : Live Deployment) : Type 0 where
  pub entity : t.self.entity ≡ s.self.entity
  pub status : t.self.status ≡ s.self.status
  pub domain_events : t.self.domain_events ≡ s.self.domain_events
  pub step_results : t.self.step_results ≡ s.self.step_results
  pub intent : t.self.intent ≡ s.self.intent

set_plan-allowed :
    (plan : ExecutionPlan) (s : Live Deployment)
    → any (is_status planned) (valid_transitions s.self.status) ≡ true
    → (perform (Call.set_plan plan) s).0 ≡ ok tt
unfolding perform methods valid_transitions DeploymentStatus-discrete
set_plan-allowed plan s h = elim (Bool-cases s.self.intent.auto_approve) [
  | inl auto ↦ rw h (rw auto)
  | inr manual ↦ rw h (rw manual)
]

set_plan-refused :
    (plan : ExecutionPlan) (s : Live Deployment)
    → any (is_status planned) (valid_transitions s.self.status) ≡ false
    → perform (Call.set_plan plan) s ≡ (
      raised (invalid_state_transition s.self.status planned),
      record s { self = record s.self { plan = some plan } },
    )
unfolding perform methods
set_plan-refused plan s h = rw h

raise-set_plan :
    (plan : ExecutionPlan) (s : Live Deployment) (e : Error)
    → (perform (Call.set_plan plan) s).0 ≡ raised e
    → (e ≡ invalid_state_transition s.self.status planned)
      × Untouched s (after (Call.set_plan plan) s)
raise-set_plan plan s e h =
    elim (Bool-cases (any (is_status planned) (valid_transitions s.self.status))) [
      | inl allowed ↦ cc (set_plan-allowed plan s allowed)
      | inr refused ↦ ground (arith, set_plan-refused plan s refused)
    ]

abbrev Refused : DeploymentStatus → (s t : Live Deployment) → Error → Type 0
Refused b s t e = (e ≡ invalid_state_transition s.self.status b) × Untouched s t

raise-transition_to :
    (b : DeploymentStatus) (s : Live Deployment) (e : Error)
    → (transition_to b s).0 ≡ raised e
    → Refused b s (transition_to b s).1 e
unfolding transition_to touch
raise-transition_to b s e h = ground arith

raise-then_event :
    (b : DeploymentStatus) (body : String → EventBody) (s : Live Deployment) (e : Error)
    → ((transition_to b >> add_event body) s).0 ≡ raised e
    → Refused b s ((transition_to b >> add_event body) s).1 e
unfolding transition_to touch add_event
raise-then_event b body s e h = ground arith

raise-fail :
    (message : String) (s : Live Deployment) (e : Error)
    → (perform (Call.fail message) s).0 ≡ raised e
    → Refused failed s (after (Call.fail message) s) e
unfolding perform methods
raise-fail message s e h = ground arith

-- If a method other than `record_step_result` raises, then the exception is the refused
-- transition from the current status to the one that the method asks for first, and the status,
-- version, times, pending events, step results and intent are as before the call.
pub raise-Untouched :
    (c : Call) (s : Live Deployment) (e : Error)
    → is_record c ≡ false
    → (perform c s).0 ≡ raised e
    → (e ≡ invalid_state_transition s.self.status (target c)) × Untouched s (after c s)
unfolding perform start_planning approve start_execution start_verification complete start_rollback
    complete_rollback cancel
raise-Untouched Call.start_planning s e n h = raise-transition_to planning s e h
raise-Untouched (Call.set_plan plan) s e n h = raise-set_plan plan s e h
raise-Untouched (Call.approve by) s e n h =
    raise-then_event approved (λ id. deployment_approved id by) s e h
raise-Untouched Call.start_execution s e n h = raise-then_event executing deployment_started s e h
raise-Untouched (Call.record_step_result r) s e n h = cc
raise-Untouched Call.start_verification s e n h = raise-transition_to verifying s e h
raise-Untouched Call.complete s e n h = raise-then_event completed deployment_completed s e h
raise-Untouched (Call.fail message) s e n h = raise-fail message s e h
raise-Untouched Call.start_rollback s e n h =
    raise-then_event rolling_back deployment_rollback_started s e h
raise-Untouched Call.complete_rollback s e n h =
    raise-then_event rolled_back deployment_rollback_completed s e h
raise-Untouched Call.cancel s e n h = raise-transition_to cancelled s e h

-- `record_step_result` always keeps the result and touches the entity once. If the step succeeded
-- or the intent has no rollback on failure, it returns with the status unchanged. Otherwise the
-- deployment fails with the step's message: if its status has no edge to FAILED, the method raises
-- and the status is unchanged, else it is FAILED and one more event is pending.
pub record_step_result-cases :
    (r : StepResult) (s : Live Deployment)
    → let c = Call.record_step_result r in
      let d = (after c s).self in
      let fails = not r.success && s.self.intent.rollback_on_failure in
      let allowed = any (is_status failed) (valid_transitions s.self.status) in
      (d.step_results ≡ s.self.step_results ++ r ∷ [])
      × (d.error_message ≡ (
          if fails
          then fstring ("Step " ∷ r.step_id ∷ " failed: " ∷ r.error_message ∷ [])
          else s.self.error_message))
      × (d.status ≡ (if fails && allowed then failed else s.self.status))
      × ((perform c s).0 ≡ (
          if fails && not allowed
          then raised (invalid_state_transition s.self.status failed)
          else ok tt))
unfolding perform methods valid_transitions
record_step_result-cases r s = ground arith
