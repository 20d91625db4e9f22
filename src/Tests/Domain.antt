-- ===== src/Tests/Domain.antt =====
-- The theorems on deployments, tasks, drift reports and users at concrete inputs.
use multi_cloud_ai_orchestra.Base.{
  ◌≡◌, refl, ◌≤◌, true, false, List, [], ◌∷◌, some, none, raised, Json, arith, any,
}
use multi_cloud_ai_orchestra.Domain.Status.{
  DeploymentStatus, DeploymentStatus-discrete, TaskStatus, TaskStatus-discrete, valid_transitions,
  task_valid_transitions, pending, approved, completed, executing, queued, succeeded,
}
use multi_cloud_ai_orchestra.Domain.Errors.{invalid_state_transition, invalid_task_transition}
use multi_cloud_ai_orchestra.Domain.Deployment
use multi_cloud_ai_orchestra.Domain.Deployment.{new_deployment}
use multi_cloud_ai_orchestra.Domain.Deployment.Calls
use multi_cloud_ai_orchestra.Domain.Deployment.Trace.{Accounted, run-Accounted}
use multi_cloud_ai_orchestra.Domain.Deployment.Gate.{is_approve, run-needs_approve}
use multi_cloud_ai_orchestra.Domain.Deployment.Terminal.{
  run-terminal, full_life, event_types, full_life-completes,
}
use multi_cloud_ai_orchestra.Domain.Deployment.Atomic.{Untouched, raise-Untouched}
use multi_cloud_ai_orchestra.Domain.Task
use multi_cloud_ai_orchestra.Domain.Task.Calls as TaskCalls
use multi_cloud_ai_orchestra.Domain.Task.Retries.{retries, run-retries}
use multi_cloud_ai_orchestra.Domain.Task.Ownership.{IsOwned, run-IsOwned}
use multi_cloud_ai_orchestra.Domain.Task.Terminal.{run-settled, report-overwrites}
use multi_cloud_ai_orchestra.Domain.Drift.{DriftReport}
use multi_cloud_ai_orchestra.Infrastructure.DriftDetector.{removed_item, changed_item}
use multi_cloud_ai_orchestra.Tests.Samples.{
  outside, entity, intent, plan, live_deployment, step_failed, live_task,
}

program : Unit {0}
unfolding Deployment.methods Calls.perform Calls.run valid_transitions DeploymentStatus-discrete
    Task.methods TaskCalls.perform TaskCalls.run task_valid_transitions TaskStatus-discrete
program = tt

-- An approval, two refused calls and a failed step.
abbrev calls : List Calls.Call
calls =
    Calls.Call.approve "ops"
    ∷ Calls.Call.complete
    ∷ Calls.Call.start_execution
    ∷ Calls.Call.record_step_result step_failed
    ∷ Calls.Call.start_planning
    ∷ []

run-Accounted_example :
    Accounted
      (live_deployment DeploymentStatus.awaiting_approval)
      (Calls.run calls (live_deployment DeploymentStatus.awaiting_approval))
run-Accounted_example = run-Accounted calls (live_deployment DeploymentStatus.awaiting_approval)

run-needs_approve_example : any is_approve (full_life plan "ops") ≡ true
unfolding program
run-needs_approve_example =
    run-needs_approve (full_life plan "ops") (live_deployment pending) refl refl refl

run-terminal_example :
    ((Calls.run calls (live_deployment completed)).self.status ≡ completed)
    × ((Calls.run calls (live_deployment completed)).self.domain_events ≡ [])
unfolding Deployment.is_terminal DeploymentStatus-discrete
run-terminal_example = run-terminal calls (live_deployment completed) refl

full_life-completes_example :
    let d =
      (Calls.run
        (full_life plan "ops")
        (new_deployment "web" intent "user" "tenant" outside)).self in
    (d.status ≡ completed)
    × (event_types d
        ≡ "deployment.plan_generated" ∷ "deployment.approved" ∷ "deployment.started"
          ∷ "deployment.completed" ∷ [])
    × (d.version ≡ 8)
    × (d.plan ≡ some plan)
full_life-completes_example =
    full_life-completes "web" intent "user" "tenant" outside plan "ops" refl

raise-Untouched_example :
    (invalid_state_transition executing approved ≡ invalid_state_transition executing approved)
    × Untouched
        (live_deployment executing)
        (Calls.after (Calls.Call.approve "ops") (live_deployment executing))
unfolding program
raise-Untouched_example =
    raise-Untouched (Calls.Call.approve "ops") (live_deployment executing)
      (invalid_state_transition executing approved) refl refl

-- An attempt that fails and is retried.
abbrev attempts : List TaskCalls.Call
attempts =
    TaskCalls.Call.acquire "w"
    ∷ TaskCalls.Call.start
    ∷ TaskCalls.Call.fail "quota"
    ∷ TaskCalls.Call.retry
    ∷ TaskCalls.Call.retry
    ∷ []

run-retries_example :
    ((TaskCalls.run attempts (live_task queued)).self.attempt_number ≡ 2)
    × (2 ≤ 3)
    × ((TaskCalls.run attempts (live_task queued)).self.max_attempts ≡ 3)
unfolding program retries
run-retries_example = run-retries attempts (live_task queued) (omega arith)

run-IsOwned_example :
    IsOwned (TaskCalls.run attempts (live_task queued)).self
    × IsOwned (TaskCalls.run attempts (live_task TaskStatus.pending)).self
run-IsOwned_example =
    run-IsOwned attempts (live_task queued) (live_task TaskStatus.pending)
      (record {
        unheld = λ h. refl;
        held = λ h. cc;
        begun = λ h. cc;
        over = λ h. cc;
        settled = λ h. cc;
      })
      refl refl

run-settled_example : (TaskCalls.run attempts (live_task succeeded)).self.status ≡ succeeded
unfolding Task.is_terminal TaskStatus-discrete
run-settled_example = run-settled attempts (live_task succeeded) refl

report-overwrites_example :
    let late = Task.succeed (some (("id", Json.str "i-1") ∷ [])) (live_task succeeded) in
    let wrong = Task.fail "quota" (live_task succeeded) in
    (late.0 ≡ raised (invalid_task_transition succeeded succeeded))
    × (late.1.self.output_data ≡ ("id", Json.str "i-1") ∷ [])
    × (wrong.0 ≡ raised (invalid_task_transition succeeded TaskStatus.failed))
    × (wrong.1.self.error_message ≡ "quota")
unfolding Task.is_terminal TaskStatus-discrete
report-overwrites_example =
    report-overwrites (live_task succeeded) "id" "quota" (Json.str "i-1") [] refl

abbrev report : DriftReport
report = record {
  entity = entity "r" 0;
  deployment_id = "d";
  scan_type = "scheduled";
  items = changed_item "web" ∷ removed_item "db" ∷ [];
  summary = "";
  auto_remediate = false;
  remediation_deployment_id = none;
}
