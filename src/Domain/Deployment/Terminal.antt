-- ===== src/Domain/Deployment/Terminal.antt =====
-- Where a deployment ends, and the whole way to its end.
use multi_cloud_ai_orchestra.Base.{
  ◌≡◌, refl, Bool, true, false, String, List, [], ◌∷◌, arith, map, some, ◌∙◌,
}
use multi_cloud_ai_orchestra.Domain.Status.{
  DeploymentStatus, DeploymentStatus-discrete, valid_transitions, failed, rolling_back, rolled_back,
  completed,
}
use multi_cloud_ai_orchestra.Domain.Entity.{Live, Ambient}
use multi_cloud_ai_orchestra.Domain.Plan.{ExecutionPlan, DeploymentIntent}
use multi_cloud_ai_orchestra.Domain.Events.{event_type}
use multi_cloud_ai_orchestra.Domain.Deployment.{Deployment, methods, is_terminal, new_deployment}
use multi_cloud_ai_orchestra.Domain.Deployment.Calls.{Call, perform, after, run}

after-terminal :
    (c : Call) (s : Live Deployment)
    → is_terminal s.self ≡ true
    → (after c s).self.status ≡ s.self.status
unfolding perform methods valid_transitions is_terminal
after-terminal Call.start_planning s h = ground arith
after-terminal _ s h = ground arith

after-events :
    (c : Call) (s : Live Deployment)
    → is_terminal s.self ≡ true
    → (after c s).self.domain_events ≡ s.self.domain_events
unfolding perform methods valid_transitions is_terminal
after-events Call.start_planning s h = ground arith
after-events _ s h = ground arith

is_terminal-after :
    (c : Call) (s : Live Deployment)
    → is_terminal s.self ≡ true
    → is_terminal (after c s).self ≡ true
unfolding is_terminal
is_terminal-after c s h = rw (after-terminal c s h) h

-- A deployment that is terminal (completed, cancelled or rolled back) keeps its status and its
-- pending events under every sequence of method calls, raising ones included; in particular no
-- method takes the table's edge from ROLLED_BACK to PENDING.
pub run-terminal :
    (cs : List Call) (s : Live Deployment)
    → is_terminal s.self ≡ true
    → ((run cs s).self.status ≡ s.self.status)
      × ((run cs s).self.domain_events ≡ s.self.domain_events)
unfolding run
run-terminal [] s h = (refl, refl)
run-terminal (c ∷ cs) s h =
    let (status, events) = run-terminal cs (after c s) (is_terminal-after c s h) in
    (status ∙ after-terminal c s h, events ∙ after-events c s h)

-- The states in which a deployment has failed or is being undone.
abbrev pub is_undone : DeploymentStatus → Bool
is_undone failed = true
is_undone rolling_back = true
is_undone rolled_back = true
is_undone _ = false

after-undone :
    (c : Call) (s : Live Deployment)
    → is_undone s.self.status ≡ true
    → is_undone (after c s).self.status ≡ true
unfolding perform methods valid_transitions
after-undone Call.start_planning s h = ground arith
after-undone _ s h = ground arith

-- A deployment that has failed, is rolling back or has been rolled back stays in these three
-- states under every sequence of method calls: VALID_TRANSITIONS lets it return to PENDING, and no
-- method does.
pub run-undone :
    (cs : List Call) (s : Live Deployment)
    → is_undone s.self.status ≡ true
    → is_undone (run cs s).self.status ≡ true
unfolding run
run-undone [] s h = h
run-undone (c ∷ cs) s h = run-undone cs (after c s) (after-undone c s h)

abbrev pub full_life : ExecutionPlan → String → List Call
full_life plan by =
    Call.start_planning
    ∷ Call.set_plan plan
    ∷ Call.approve by
    ∷ Call.start_execution
    ∷ Call.start_verification
    ∷ Call.complete
    ∷ []

abbrev pub event_types : Deployment → List String
event_types d = map (λ e. event_type e.body) d.domain_events

-- Every new deployment whose intent does not ask for auto-approval can be completed: planning, a
-- plan, an approval, execution, verification and completion lead to COMPLETED, with the four
-- events pending in this order, version 8 and the given plan.
pub full_life-completes :
    (name : String) (intent : DeploymentIntent) (by tenant : String) (a : Ambient)
    (plan : ExecutionPlan) (approver : String)
    → intent.auto_approve ≡ false
    → let d = (run (full_life plan approver) (new_deployment name intent by tenant a)).self in
      (d.status ≡ completed)
      × (event_types d
          ≡ "deployment.plan_generated" ∷ "deployment.approved" ∷ "deployment.started"
            ∷ "deployment.completed" ∷ [])
      × (d.version ≡ 8)
      × (d.plan ≡ some plan)
unfolding run perform methods valid_transitions new_deployment event_type DeploymentStatus-discrete
full_life-completes name intent by tenant a plan approver m = rw m (refl, refl, refl, refl)
