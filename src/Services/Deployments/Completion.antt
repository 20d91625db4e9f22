-- ===== src/Services/Deployments/Completion.antt =====
-- handle_task_completion: the reports of the workers, and what they make of a deployment.
use multi_cloud_ai_orchestra.Base.{
  ◌≡◌, refl, sym, ap, ◌∙◌, subst, String, str_eq, Bool, true, false, not, ◌&&◌, List, [], ◌∷◌,
  Option, some, ok, Result, and_then, ◌>>◌, Json, inl, inr, Bool-cases, if◌then◌else◌, any, arith,
  eq_iff,
}
use multi_cloud_ai_orchestra.Base.Dict.{Dict, put, values}
use multi_cloud_ai_orchestra.Domain.Status.{
  DeploymentStatus, executing, verifying, rolling_back, failed, valid_transitions,
  DeploymentStatus-discrete, TaskStatus, running, is_task_status, task_valid_transitions,
  TaskStatus-discrete,
}
use multi_cloud_ai_orchestra.Domain.Cloud.{ResourceSpec}
use multi_cloud_ai_orchestra.Domain.Errors.{Error}
use multi_cloud_ai_orchestra.Domain.Deployment
use multi_cloud_ai_orchestra.Domain.Deployment.{Deployment}
use multi_cloud_ai_orchestra.Domain.Task
use multi_cloud_ai_orchestra.Domain.Task.{Task}
use multi_cloud_ai_orchestra.Infrastructure.InMemory.{
  deployment_by_id, save_deployment, task_by_id, save_task, tasks_by_deployment,
}
use multi_cloud_ai_orchestra.Services.World.{
  World, publish_all-ok, publish_all-deployments, publish_all-tasks, status_in, status_in-put,
  clear_events, clear_events-keeps, status_of, publish_events, on_deployment, on_task,
  update_deployment, update_task,
}
use multi_cloud_ai_orchestra.Services.Deployments.Expected.{expected_status, all_complete-all}
use multi_cloud_ai_orchestra.Services.Deployments.{
  handle_task_completion, report_task, record_completion, settle, all_complete, any_failed,
  result_of,
}

-- The state that `settle` takes an executing deployment to.
abbrev next_status : Bool → List Task → DeploymentStatus
next_status rollback tasks =
    if all_complete tasks && not (any_failed tasks)
    then verifying
    else if any_failed tasks && rollback
    then rolling_back
    else executing

-- A task that a store is given is among the tasks of its deployment.
any-put :
    (p : Task → Bool) (key : String) (t : Task) (store : Dict Task)
    → p t ≡ true
    → any p (tasks_by_deployment t.deployment_id (put key t store)) ≡ true
unfolding tasks_by_deployment put values
any-put p key t [] h = rw ((eq_iff t.deployment_id t.deployment_id).1 refl, h) refl
any-put p key t ((j, u) ∷ store) h = elim (Bool-cases (str_eq j key)) [
  | inl e ↦ rw (e, (eq_iff t.deployment_id t.deployment_id).1 refl, h) refl
  | inr e ↦
      let rest = any-put p key t store h in
      rw e elim (Bool-cases (str_eq u.deployment_id t.deployment_id)) [
        | inl q ↦ ground (arith, q, rest)
        | inr q ↦ rw q rest
      ]
]

any_failed-save_task :
    (deployment_id : String) (t : Task) (store : Dict Task)
    → t.deployment_id ≡ deployment_id
    → is_task_status t.status TaskStatus.failed ≡ true
    → any_failed (tasks_by_deployment deployment_id (save_task t store)) ≡ true
unfolding any_failed save_task
any_failed-save_task deployment_id t store same h =
    subst (λ i. any_failed (tasks_by_deployment i (save_task t store)) ≡ true) same
      (any-put (λ u. is_task_status u.status TaskStatus.failed) t.id t store h)

abbrev with_rollback : Bool → Deployment → Deployment
with_rollback rollback d = record d { intent = record d.intent { rollback_on_failure = rollback } }

-- What `settle` has made of a deployment: it went on under its identifier, in the state `s`.
abbrev Settles : String → DeploymentStatus → Dict Task → Result Error Deployment × World → Type 0
Settles id s tasks (r, v) =
    (e : Deployment) × (r ≡ ok e) × (e.id ≡ id) × (e.status ≡ s) × (v.tasks ≡ tasks)

settle-executing :
    (all failed rollback : Bool) (tasks : List Task) (d : Deployment) (w : World)
    → all_complete tasks ≡ all
    → any_failed tasks ≡ failed
    → Settles d.id
        (next_status rollback tasks)
        w.tasks
        (settle tasks (with_rollback rollback (record d { status = executing })) w)
unfolding settle on_deployment Deployment.methods valid_transitions DeploymentStatus-discrete
settle-executing true false rollback tasks d w a f = rw (a, f) (_, refl, refl, refl, refl)
settle-executing false false rollback tasks d w a f = rw (a, f) (_, refl, refl, refl, refl)
settle-executing true true true tasks d w a f = rw (a, f) (_, refl, refl, refl, refl)
settle-executing false true true tasks d w a f = rw (a, f) (_, refl, refl, refl, refl)
settle-executing true true false tasks d w a f = rw (a, f) (_, refl, refl, refl, refl)
settle-executing false true false tasks d w a f = rw (a, f) (_, refl, refl, refl, refl)

settle-failed :
    (tasks : List Task) (d : Deployment) (w : World)
    → any_failed tasks ≡ true
    → Settles d.id
        (next_status true tasks)
        w.tasks
        (settle tasks (with_rollback true (record d { status = failed })) w)
unfolding settle on_deployment Deployment.methods valid_transitions DeploymentStatus-discrete
settle-failed tasks d w f = elim (Bool-cases (all_complete tasks)) [
  | inl a ↦ rw (a, f) (_, refl, refl, refl, refl)
  | inr a ↦ rw (a, f) (_, refl, refl, refl, refl)
]

settle-Settles :
    (tasks : List Task) (d : Deployment) (w : World)
    → executing ≡ d.status
    → Settles d.id (next_status d.intent.rollback_on_failure tasks) w.tasks (settle tasks d w)
settle-Settles tasks d w h =
    subst
      (λ s.
        Settles d.id (next_status d.intent.rollback_on_failure tasks) w.tasks
          (settle tasks (record d { status = s }) w))
      h (settle-executing _ _ d.intent.rollback_on_failure tasks d w refl refl)

settle-Settles_failed :
    (tasks : List Task) (d : Deployment) (w : World)
    → failed ≡ d.status
    → true ≡ d.intent.rollback_on_failure
    → any_failed tasks ≡ true
    → Settles d.id (next_status d.intent.rollback_on_failure tasks) w.tasks (settle tasks d w)
settle-Settles_failed tasks d w h k f =
    subst (λ b. Settles d.id (next_status b tasks) w.tasks (settle tasks (with_rollback b d) w)) k
      (subst
        (λ s.
          Settles d.id (next_status true tasks) w.tasks
            (settle tasks (with_rollback true (record d { status = s })) w))
        h (settle-failed tasks d w f))

-- The end of handle_task_completion: what was settled is stored and its events are published.
and_then-status :
    (q : Result Error Deployment) (v : World) (id : String) (s : DeploymentStatus)
    (tasks : Dict Task)
    → Settles id s tasks (q, v)
    → let (r, u) =
        and_then {B = Unit {0}} q
          (λ settled. update_deployment settled >> publish_events settled)
          v in
      (r ≡ ok tt) × (status_in id u.deployments ≡ some s) × (u.tasks ≡ tasks)
unfolding publish_events update_deployment save_deployment
and_then-status q v id s tasks (e, o, same, reached, kept) =
    let saved = save_deployment e v.deployments in
    let u : World = record v { deployments = clear_events e.id saved } in
    let stored =
      clear_events-keeps status_of (λ d. refl) e.id e.id saved ∙ status_in-put e v.deployments in
    rw o (
      publish_all-ok e.domain_events u,
      rw (publish_all-deployments e.domain_events u)
          (subst (λ i. status_in i u.deployments ≡ some s) same (stored ∙ ap some reached)),
      publish_all-tasks e.domain_events u ∙ kept,
    )

-- The same, with the state read off the tasks that are stored then.
and_then-next_status :
    (q : Result Error Deployment) (v : World) (id deployment_id : String) (rollback : Bool)
    (tasks : Dict Task)
    → Settles id (next_status rollback (tasks_by_deployment deployment_id tasks)) tasks (q, v)
    → let (r, u) =
        and_then {B = Unit {0}} q
          (λ settled. update_deployment settled >> publish_events settled)
          v in
      (r ≡ ok tt)
      × (status_in id u.deployments
          ≡ some (next_status rollback (tasks_by_deployment deployment_id u.tasks)))
and_then-next_status q v id deployment_id rollback tasks h =
    let (returns, status, kept) = and_then-status q v id _ tasks h in
    (
      returns,
      status
          ∙ ap (λ ts. some (next_status rollback (tasks_by_deployment deployment_id ts)))
              (sym kept),
    )

handle_task_completion-settles_rollback :
    (dump_spec : ResourceSpec → Json) (show : Dict Json → String) (task_id : String)
    (success rollback : Bool) (output : Option (Dict Json)) (error : String) (t : Task)
    (d : Deployment) (w : World)
    → task_by_id task_id w.tasks ≡ some (record t { status = running })
    → deployment_by_id t.deployment_id w.deployments
      ≡ some (with_rollback rollback (record d { status = executing }))
    → let (r, v) = handle_task_completion dump_spec show task_id success output error w in
      (r ≡ ok tt)
      × (status_in d.id v.deployments
          ≡ some (next_status rollback (tasks_by_deployment t.deployment_id v.tasks)))
unfolding handle_task_completion report_task record_completion result_of on_deployment on_task
    Deployment.methods Task.methods valid_transitions task_valid_transitions
    DeploymentStatus-discrete TaskStatus-discrete update_deployment update_task
handle_task_completion-settles_rollback dump_spec show task_id true rollback output error t d w h
      k =
    rw (h, k) (and_then-next_status _ _ d.id t.deployment_id rollback _ (settle-Settles _ _ _ refl))
handle_task_completion-settles_rollback dump_spec show task_id false true output error t d w h k =
    rw (h, k)
      (and_then-next_status _ _ d.id t.deployment_id true _
        (settle-Settles_failed _ _ _ refl refl (any_failed-save_task _ _ _ refl refl)))
handle_task_completion-settles_rollback dump_spec show task_id false false output error t d w h k =
    rw (h, k) (and_then-next_status _ _ d.id t.deployment_id false _ (settle-Settles _ _ _ refl))

next_status-expected :
    (rollback : Bool) (tasks : List Task)
    → next_status rollback tasks ≡ expected_status rollback tasks
unfolding any_failed
next_status-expected rollback tasks = rw (all_complete-all tasks) refl

-- When the task is RUNNING and its deployment EXECUTING, handle_task_completion returns, and the
-- state it leaves the deployment in is decided by the tasks as they are stored then: VERIFYING if
-- every task has succeeded or been cancelled; otherwise ROLLING_BACK if a task has failed and the
-- intent asks for a rollback; otherwise EXECUTING as before.
pub handle_task_completion-settles :
    (dump_spec : ResourceSpec → Json) (show : Dict Json → String) (task_id : String)
    (success : Bool) (output : Option (Dict Json)) (error : String) (t : Task) (d : Deployment)
    (w : World)
    → task_by_id task_id w.tasks ≡ some (record t { status = running })
    → deployment_by_id t.deployment_id w.deployments ≡ some (record d { status = executing })
    → let (r, v) = handle_task_completion dump_spec show task_id success output error w in
      (r ≡ ok tt)
      × (status_in d.id v.deployments
          ≡ some (
              expected_status d.intent.rollback_on_failure
                (tasks_by_deployment t.deployment_id v.tasks)))
handle_task_completion-settles dump_spec show task_id success output error t d w h k =
    let (returns, status) =
      handle_task_completion-settles_rollback dump_spec show task_id success
        d.intent.rollback_on_failure output error t d w h k in
    (returns, status ∙ ap some (next_status-expected d.intent.rollback_on_failure _))
