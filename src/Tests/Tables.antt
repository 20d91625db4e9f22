-- ===== src/Tests/Tables.antt =====
-- The theorems on the Postgres repositories at a table in memory.
use multi_cloud_ai_orchestra.Base.{
  ◌≡◌, ◌≢◌, ◌⊎◌, refl, sym, String, false, [], ◌∷◌, some, none, ok, Json, Fields,
}
use mathlib.Core.Option.{some-ne-none}
use multi_cloud_ai_orchestra.Base.Dict.{get, put, values}
use multi_cloud_ai_orchestra.Base.Held.{All-get}
use multi_cloud_ai_orchestra.Domain.Status.{DeploymentStatus, queued}
use multi_cloud_ai_orchestra.Domain.Cloud.{provider_value}
use multi_cloud_ai_orchestra.Domain.Enums.{task_status_value, deployment_status_value}
use multi_cloud_ai_orchestra.Domain.Ports.Queue.{IsDistinct, serve}
use multi_cloud_ai_orchestra.Domain.Deployment.{Deployment}
use multi_cloud_ai_orchestra.Domain.Task.{Task}
use multi_cloud_ai_orchestra.Infrastructure.InMemory
use multi_cloud_ai_orchestra.Infrastructure.InMemory.{TaskStore}
use multi_cloud_ai_orchestra.Infrastructure.Queues.{acquire_next-IsDistinct}
use multi_cloud_ai_orchestra.Infrastructure.Postgres.Columns.{Dumps}
use multi_cloud_ai_orchestra.Infrastructure.Postgres.Models.{
  TaskOrm, tasks, task_fits, deployments, deployment_fits,
}
use multi_cloud_ai_orchestra.Infrastructure.Postgres.Tasks
use multi_cloud_ai_orchestra.Infrastructure.Postgres.Tasks.{
  task_to_orm, task_values, acquire_next, save_task, update_task, task_by_id,
}
use multi_cloud_ai_orchestra.Infrastructure.Postgres.Tasks.Saved
use multi_cloud_ai_orchestra.Infrastructure.Postgres.Tasks.Saved.{task_by_id-update_task}
use multi_cloud_ai_orchestra.Infrastructure.Postgres.Tasks.Claimed.{
  acquire_next-claims, IsNext, IsClaimed, IsWaiting, finishes,
}
use multi_cloud_ai_orchestra.Infrastructure.Postgres.Deployments.{
  deployment_to_orm, deployment_values, save_deployment, update_deployment, deployment_by_id,
}
use multi_cloud_ai_orchestra.Infrastructure.Postgres.Deployments.Revised
use multi_cloud_ai_orchestra.Infrastructure.Postgres.Deployments.Revised.{
  deployment_by_id-update_deployment,
}
use multi_cloud_ai_orchestra.Tests.Database.{IsServed, Table, write, session, empty}
use multi_cloud_ai_orchestra.Tests.Database.Laws.{table}
use multi_cloud_ai_orchestra.Tests.Samples.{outside, deployment, task, plan, intent, step_failed}

task_server : IsServed tasks
unfolding task_fits
task_server = record {
  inserted_identity = λ t r. refl;
  updated_identity = λ t r. refl;
  inserted_fits = λ t r h. h;
  updated_fits = λ t r h. h;
}

deployment_server : IsServed deployments
unfolding deployment_fits
deployment_server = record {
  inserted_identity = λ t r. refl;
  updated_identity = λ t r. refl;
  inserted_fits = λ t r h. h;
  updated_fits = λ t r h. h;
}

abbrev two_tasks : Table tasks task_server
two_tasks =
    let (_, one) =
      write tasks task_server (tasks.inserted 3 (task_to_orm (task "t" 1 queued)))
        (empty tasks task_server) in
    (write tasks task_server (tasks.inserted 2 (task_to_orm (task "u" 0 queued))) one).1

acquire_next-claims_example :
    let (result, u) = acquire_next (session tasks task_server) "worker-1" two_tasks in
    ((result ≡ ok none)
      × ((k : String) → get k u.rows ≡ get k two_tasks.rows)
      × ((k : String) (r : TaskOrm)
          → IsWaiting (session tasks task_server) (table tasks task_server) two_tasks k r
          → ⊥))
    ⊎ ((r : TaskOrm) × IsNext (session tasks task_server) (table tasks task_server) two_tasks r
        × IsClaimed (session tasks task_server) (table tasks task_server) "worker-1" two_tasks r u
        × ((v : Table tasks task_server) × (acquire_next
                (session tasks task_server)
                "worker-1"
                two_tasks
              ≡ finishes (session tasks task_server) (table tasks task_server) "worker-1" r v)))
unfolding table
acquire_next-claims_example =
    acquire_next-claims (session tasks task_server) (table tasks task_server) "worker-1" two_tasks
      refl

abbrev store : TaskStore
store = record {
  tasks = ("t", task "t" 1 queued) ∷ ("u", task "u" 0 queued) ∷ [];
  ambient = outside;
}

acquire_next-IsDistinct_example :
    IsDistinct (serve InMemory.task_repository ("a" ∷ "b" ∷ "c" ∷ []) store)
    × IsDistinct
        (serve (Tasks.task_repository (session tasks task_server)) ("a" ∷ "b" ∷ "c" ∷ []) two_tasks)
unfolding get
acquire_next-IsDistinct_example =
    acquire_next-IsDistinct (session tasks task_server) (table tasks task_server)
      ("a" ∷ "b" ∷ "c" ∷ []) store two_tasks ((refl, refl, (refl, refl, tt)))
      (refl, (refl, (refl, tt)))

-- A task whose attempt has failed, to be tried again.
abbrev tried : Task
tried = record (task "v" 4 queued) { attempt_number = 2; error_message = "quota" }

task_by_id-update_task_example :
    let s = two_tasks in
    let (result, t) = save_task (session tasks task_server) (task "v" 4 queued) s in
    let (result', u) = update_task (session tasks task_server) tried t in
    (result ≡ ok (task "v" 4 queued))
    × (task_by_id (session tasks task_server) "v" t
        ≡ (ok (some (Saved.stored 7 (task "v" 4 queued))), t))
    × (result' ≡ ok tried)
    × (task_by_id (session tasks task_server) "v" u
        ≡ (ok (some (Saved.revised 7 (Saved.stored 7 (task "v" 4 queued)) tried)), u))
    × ((k : String) → k ≢ "v" → get k u.rows ≡ get k s.rows)
unfolding table empty task_fits task_to_orm task_values task_status_value provider_value put values
task_by_id-update_task_example =
    task_by_id-update_task (session tasks task_server) (table tasks task_server) (task "v" 4 queued)
      tried two_tasks refl
      (λ k r found.
        All-get (λ x. tasks.clashes (task_to_orm (task "v" 4 queued)) x ≡ false) k r two_tasks.rows
          found (refl, (refl, tt)))
      refl refl refl refl

-- A pydantic model with a dump, for one value.
abbrev dumps : {A : Type 0} → A → Dumps A
dumps a = record {
  model_dump = λ _. Json.obj (Fields.field "id" (Json.str "x") Fields.no_fields);
  model_validate = λ _. some a;
}

abbrev created : Deployment
created = record (deployment DeploymentStatus.pending) { plan = none }

abbrev changed : Deployment
changed = record (deployment DeploymentStatus.planned) {
  step_results = step_failed ∷ [];
  tenant_id = "another";
}

deployment_by_id-update_deployment_example :
    let s = empty deployments deployment_server in
    let db = session deployments deployment_server in
    let (result, t) =
      save_deployment (dumps intent) (dumps plan) (dumps step_failed) db created s in
    let (result', u) =
      update_deployment (dumps intent) (dumps plan) (dumps step_failed) db changed t in
    (result ≡ ok created)
    × (deployment_by_id (dumps intent) (dumps plan) (dumps step_failed) db "d" t
        ≡ (ok (some (Revised.stored 7 created)), t))
    × (result' ≡ ok changed)
    × (deployment_by_id (dumps intent) (dumps plan) (dumps step_failed) db "d" u
        ≡ (ok (some (Revised.revised 7 (Revised.stored 7 created) changed)), u))
    × ((k : String) → k ≢ "d" → get k u.rows ≡ get k s.rows)
unfolding table empty deployment_fits deployment_to_orm deployment_values deployment_status_value
    get
deployment_by_id-update_deployment_example =
    deployment_by_id-update_deployment (dumps intent) (dumps plan) (dumps step_failed)
      (session deployments deployment_server) (table deployments deployment_server) created changed
      (empty deployments deployment_server) ((refl, refl), tt, tt)
      ((refl, refl), (refl, refl), ((refl, refl), tt)) refl
      (λ k r found. absurd (some-ne-none r (sym found))) refl refl
