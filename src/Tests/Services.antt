-- ===== src/Tests/Services.antt =====
-- The theorems on the domain services and the workers at concrete inputs.
use multi_cloud_ai_orchestra.Base.{
  List, ◌≡◌, refl, String, Bool, true, false, [], ◌∷◌, Option, some, none, ok, raised, map, Json,
  length, if◌then◌else◌, mem_text, fstring,
}
use multi_cloud_ai_orchestra.Base.Dict.{Dict, get}
use multi_cloud_ai_orchestra.Domain.Status.{
  TaskStatus, task_valid_transitions, pending, approved, awaiting_approval, executing, rolling_back,
  queued, running, acquired, succeeded,
}
use multi_cloud_ai_orchestra.Domain.Cloud.{aws, compute, ResourceSpec}
use multi_cloud_ai_orchestra.Domain.Entity.{after_now}
use multi_cloud_ai_orchestra.Domain.Errors.{invalid_task_transition, invalid_state_transition}
use multi_cloud_ai_orchestra.Domain.Drift.{has_drift, max_severity}
use multi_cloud_ai_orchestra.Infrastructure.InMemory.{
  deployment_by_id, task_by_id, tasks_by_deployment, report_by_id,
}
use multi_cloud_ai_orchestra.Infrastructure.Planning.Generate.{generate_plan}
use multi_cloud_ai_orchestra.Infrastructure.DriftDetector.{detect_drift}
use multi_cloud_ai_orchestra.Services.World.{
  World, acquire, release, status_in, task_status_of, published_types,
}
use multi_cloud_ai_orchestra.Services.Deployments.{
  plan_deployment, planning_key, execute_deployment, handle_task_completion,
}
use multi_cloud_ai_orchestra.Services.Deployments.Planning.{
  outcome, stored_outcome, plan_deployment-lock, plan_deployment-plans,
}
use multi_cloud_ai_orchestra.Services.Deployments.Execution.{
  orders, order_for, execute_deployment-tasks,
}
use multi_cloud_ai_orchestra.Services.Deployments.Completion.{handle_task_completion-settles}
use multi_cloud_ai_orchestra.Services.Deployments.Expected.{expected_status}
use multi_cloud_ai_orchestra.Services.Deployments.Late.{
  handle_task_completion-refused, handle_task_completion-rolling_back,
}
use multi_cloud_ai_orchestra.Services.Drift.{DriftWorld, scan_deployment}
use multi_cloud_ai_orchestra.Services.Drift.Scans.{IsExpected, scan_deployment-reports}
use multi_cloud_ai_orchestra.Domain.Enums.{task_status_value}
use multi_cloud_ai_orchestra.Workers.Base.{Outcome, Worker, execute_task_lifecycle}
use multi_cloud_ai_orchestra.Workers.Base.Lifecycle.{execute_task_lifecycle-ends}
use multi_cloud_ai_orchestra.Workers.Terraform.{
  TerraformCall, generate_config, init, apply, show_state, execute,
}
use multi_cloud_ai_orchestra.Workers.Terraform.Phases.{is_ok, execute-phases}
use multi_cloud_ai_orchestra.Domain.Task.{Task}
use multi_cloud_ai_orchestra.Tests.Samples.{outside, intent, plan, deployment, spec, task, world}

-- Stand-ins for pydantic's `model_dump` and for `str`.
abbrev dump_spec : ResourceSpec → Json
dump_spec spec = Json.str spec.name

abbrev show : Dict Json → String
show output = "{...}"

abbrev pending_world : Bool → World
pending_world answer = world answer pending queued queued

plan_deployment-lock_example :
    (plan_deployment "d" (pending_world true)).1.lock_calls
    ≡ acquire (planning_key "d") true ∷ release (planning_key "d") ∷ []
plan_deployment-lock_example = plan_deployment-lock "d" (pending_world true)

plan_deployment-plans_example :
    let (r, v) = plan_deployment "d" (pending_world true) in
    (outcome r ≡ some (awaiting_approval, some (generate_plan intent (after_now outside)).0))
    × (stored_outcome (deployment_by_id "d" v.deployments)
        ≡ some (awaiting_approval, some (generate_plan intent (after_now outside)).0))
    × (published_types v ≡ "deployment.plan_generated" ∷ [])
unfolding deployment_by_id get
plan_deployment-plans_example =
    plan_deployment-plans "d" (deployment pending) (pending_world true) refl refl

execute_deployment-tasks_example :
    let (r, v) = execute_deployment dump_spec show "d" (world true approved queued queued) in
    (orders r ≡ ok (map (order_for "d") plan.steps))
    × (status_in "d" v.deployments ≡ some executing)
unfolding deployment_by_id get
execute_deployment-tasks_example =
    execute_deployment-tasks dump_spec show "d" (deployment approved) plan
      (world true approved queued queued) refl

handle_task_completion-settles_example :
    let (r, v) =
      handle_task_completion dump_spec show "t" false none "quota"
        (world true executing running queued) in
    (r ≡ ok tt)
    × (status_in "d" v.deployments ≡ some (expected_status true (tasks_by_deployment "d" v.tasks)))
unfolding task_by_id deployment_by_id get
handle_task_completion-settles_example =
    handle_task_completion-settles dump_spec show "t" false none "quota" (task "t" 1 running)
      (deployment executing) (world true executing running queued) refl refl

handle_task_completion-refused_example :
    let w = world true executing succeeded queued in
    let (r, v) = handle_task_completion dump_spec show "t" false none "quota" w in
    (r ≡ raised (invalid_task_transition succeeded TaskStatus.failed))
    × (v.deployments ≡ w.deployments)
    × (v.published ≡ [])
unfolding task_by_id get task_valid_transitions
handle_task_completion-refused_example =
    handle_task_completion-refused dump_spec show "t" false none "quota" (task "t" 1 succeeded)
      (world true executing succeeded queued) refl refl

handle_task_completion-rolling_back_example :
    let w = world true rolling_back running TaskStatus.failed in
    let (r, v) = handle_task_completion dump_spec show "t" true none "" w in
    (r ≡ raised (invalid_state_transition rolling_back rolling_back))
    × (task_status_of (task_by_id "t" v.tasks) ≡ some succeeded)
unfolding task_by_id deployment_by_id get
handle_task_completion-rolling_back_example =
    handle_task_completion-rolling_back dump_spec show "t" none "" (task "t" 1 running)
      (task "u" 0 TaskStatus.failed) (deployment rolling_back)
      (world true rolling_back running TaskStatus.failed) refl refl refl refl

abbrev drift_world : DriftWorld
drift_world = record {
  deployments = ("d", deployment executing) ∷ [];
  reports = [];
  published = [];
  detector = record {
    simulated_states = ("aws/us-east-1/compute/web", []) ∷ [];
    draws = λ n. true;
    ambient = outside;
  };
}

scan_deployment-reports_example :
    (state : Dict Json) × IsExpected dump_spec (deployment executing) state
    × (let report = (detect_drift "d" state drift_world.detector).0 in
        let (r, v) = scan_deployment dump_spec "d" drift_world in
        (r ≡ ok report)
        × (report_by_id report.id v.reports ≡ some report)
        × (v.published ≡ (
            if has_drift report
            then (
              "drift.detected",
              record {
                deployment_id = "d";
                drift_count = length report.items;
                severity = max_severity report;
              },
            )
              ∷ []
            else [])))
unfolding deployment_by_id get
scan_deployment-reports_example =
    scan_deployment-reports dump_spec "d" (deployment executing) drift_world refl

abbrev worker : Worker
worker = record {
  worker_id = "w";
  max_concurrent = 5;
  active_tasks = "v" ∷ [];
  tasks = ("t", task "t" 1 acquired) ∷ [];
  published = [];
  ambient = outside;
}

execute_task_lifecycle-ends_example :
    let (r, v) = execute_task_lifecycle (λ t. Outcome.timed_out) (task "t" 1 acquired) worker in
    (r ≡ ok tt)
    × (task_status_of (task_by_id "t" v.tasks) ≡ some TaskStatus.timed_out)
    × (v.published
        ≡ (
          fstring ("task." ∷ task_status_value TaskStatus.timed_out ∷ []),
          record {
            task_id = "t";
            deployment_id = "d";
            worker_id = "w";
            status = TaskStatus.timed_out;
          },
        )
          ∷ [])
    × (mem_text "t" v.active_tasks ≡ false)
execute_task_lifecycle-ends_example =
    execute_task_lifecycle-ends (λ t. Outcome.timed_out) (task "t" 1 acquired) worker

abbrev answer : List TerraformCall → TerraformCall → Bool × String
answer calls call = (true, "done")

abbrev validate : Json → Option ResourceSpec
validate json = some (spec compute "web")

abbrev join_path : String → String → String
join_path deployment_id step_id = fstring (deployment_id ∷ "/" ∷ step_id ∷ [])

abbrev creating : Task
creating = record (task "t" 1 running) { terraform_action = "create" }

execute-phases_example :
    let dir = join_path "d" "t" in
    let (r, after) = execute answer (λ calls. []) validate join_path creating [] in
    (is_ok r ≡ true)
    × (after
        ≡ generate_config (spec compute "web") dir
          ∷ init dir aws
          ∷ TerraformCall.plan dir
          ∷ apply dir
          ∷ show_state dir
          ∷ [])
execute-phases_example =
    execute-phases answer validate join_path (λ calls. []) creating (spec compute "web") [] refl
