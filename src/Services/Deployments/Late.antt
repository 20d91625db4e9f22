-- ===== src/Services/Deployments/Late.antt =====
-- handle_task_completion for reports that come late: the task or its deployment has moved on.
use multi_cloud_ai_orchestra.Base.{
  ◌≡◌, refl, sym, ap, ◌∙◌, subst, String, str_eq, Bool, true, false, List, [], ◌∷◌, Option, some,
  raised, Result, and_then, Json, inl, inr, Bool-cases, if◌then◌else◌, any, select, arith, eq_iff,
}
use multi_cloud_ai_orchestra.Base.Dict.{Dict, get, put, get-put, values}
use multi_cloud_ai_orchestra.Domain.Status.{
  DeploymentStatus, rolling_back, valid_transitions, DeploymentStatus-discrete, TaskStatus, running,
  succeeded, is_task_status, task_valid_transitions, TaskStatus-discrete,
}
use multi_cloud_ai_orchestra.Domain.Cloud.{ResourceSpec}
use multi_cloud_ai_orchestra.Domain.Errors.{
  Error, invalid_task_transition, invalid_state_transition,
}
use multi_cloud_ai_orchestra.Domain.Deployment
use multi_cloud_ai_orchestra.Domain.Deployment.{Deployment}
use multi_cloud_ai_orchestra.Domain.Task
use multi_cloud_ai_orchestra.Domain.Task.{Task}
use multi_cloud_ai_orchestra.Infrastructure.InMemory.{
  deployment_by_id, task_by_id, save_task, tasks_by_deployment,
}
use multi_cloud_ai_orchestra.Services.World.{
  task_status_of, World, on_deployment, on_task, update_deployment, update_task,
}
use multi_cloud_ai_orchestra.Services.Deployments.{
  handle_task_completion, report_task, record_completion, settle, all_complete, any_failed,
  result_of,
}

-- The state that a report leads to.
abbrev reported : Bool → TaskStatus
reported success = if success then succeeded else TaskStatus.failed

-- A report for a task from whose state the transition is not in TASK_VALID_TRANSITIONS, so for any
-- task that is not RUNNING but for the failure of one that has timed out, raises
-- InvalidTaskTransitionError, and neither a deployment nor the published events change.
pub handle_task_completion-refused :
    (dump_spec : ResourceSpec → Json) (show : Dict Json → String) (task_id : String)
    (success : Bool) (output : Option (Dict Json)) (error : String) (t : Task) (w : World)
    → task_by_id task_id w.tasks ≡ some t
    → any (is_task_status (reported success)) (task_valid_transitions t.status) ≡ false
    → let (r, v) = handle_task_completion dump_spec show task_id success output error w in
      (r ≡ raised (invalid_task_transition t.status (reported success)))
      × (v.deployments ≡ w.deployments)
      × (v.published ≡ w.published)
unfolding handle_task_completion report_task on_task Task.methods
handle_task_completion-refused dump_spec show task_id true output error t w h k =
    rw (h, k) (refl, refl, refl)
handle_task_completion-refused dump_spec show task_id false output error t w h k =
    rw (h, k) (refl, refl, refl)

-- What a key finds is among the values.
any-get :
    (p : Task → Bool) (key : String) (u : Task) (store : Dict Task)
    → get key store ≡ some u
    → p u ≡ true
    → any p (tasks_by_deployment u.deployment_id store) ≡ true
unfolding tasks_by_deployment get values
any-get p key u [] h k = ground arith
any-get p key u ((j, x) ∷ store) h k = elim (Bool-cases (str_eq j key)) [
  | inl e ↦
      let same : x ≡ u = ground (arith, h, e) in
      subst
        (λ v.
          any p (
            if str_eq v.deployment_id u.deployment_id
            then v ∷ select (λ t. str_eq t.deployment_id u.deployment_id) (values store)
            else select (λ t. str_eq t.deployment_id u.deployment_id) (values store))
          ≡ true)
        (sym same) (rw ((eq_iff u.deployment_id u.deployment_id).1 refl, k) refl)
  | inr e ↦
      let rest = any-get p key u store (ground (arith, h, e)) k in
      elim (Bool-cases (str_eq x.deployment_id u.deployment_id)) [
        | inl q ↦ ground (arith, q, rest)
        | inr q ↦ rw q rest
      ]
]

-- A raise ends the sequence.
and_then-raised :
    {A B : Type 0} (e : Error) (q : Result Error A) (f : A → World → Result Error B × World)
    (v : World)
    → q ≡ raised e
    → and_then {B = B} q f v ≡ (raised e, v)
and_then-raised e q f v h = rw h refl

settle-raises_literal :
    (tasks : List Task) (d : Deployment) (w : World)
    → any_failed tasks ≡ true
    → let (r, v) =
        settle tasks
          (record d {
            status = rolling_back;
            intent = record d.intent { rollback_on_failure = true };
          })
          w in
      (r ≡ raised (invalid_state_transition rolling_back rolling_back)) × (v.tasks ≡ w.tasks)
unfolding settle on_deployment Deployment.methods valid_transitions DeploymentStatus-discrete
settle-raises_literal tasks d w f = elim (Bool-cases (all_complete tasks)) [
  | inl a ↦ rw (a, f) (refl, refl)
  | inr a ↦ rw (a, f) (refl, refl)
]

settle-raises :
    (tasks : List Task) (d : Deployment) (w : World)
    → any_failed tasks ≡ true
    → rolling_back ≡ d.status
    → true ≡ d.intent.rollback_on_failure
    → let (r, v) = settle tasks d w in
      (r ≡ raised (invalid_state_transition rolling_back rolling_back)) × (v.tasks ≡ w.tasks)
settle-raises tasks d w f s b =
    subst (λ x. Raises x d.intent.rollback_on_failure) s
      (subst (λ x. Raises rolling_back x) b (settle-raises_literal tasks d w f))
  where
    Raises : DeploymentStatus → Bool → Type 0
    Raises x y =
        let (r, v) =
          settle tasks
            (record d { status = x; intent = record d.intent { rollback_on_failure = y } }) w in
        (r ≡ raised (invalid_state_transition rolling_back rolling_back)) × (v.tasks ≡ w.tasks)

-- The end of handle_task_completion does not get further than `settle`.
settle-ends :
    (deployment_id : String) (u : Task) (tasks : Dict Task) (d : Deployment) (w : World)
    (rest : Deployment → World → Result Error (Unit {0}) × World)
    → get u.id tasks ≡ some u
    → u.deployment_id ≡ deployment_id
    → is_task_status u.status TaskStatus.failed ≡ true
    → rolling_back ≡ d.status
    → true ≡ d.intent.rollback_on_failure
    → let (q, v) = settle (tasks_by_deployment deployment_id tasks) d w in
      let (r, x) = and_then q rest v in
      (r ≡ raised (invalid_state_transition rolling_back rolling_back)) × (x.tasks ≡ w.tasks)
unfolding any_failed
settle-ends deployment_id u tasks d w rest found same f s b =
    let failing =
      subst (λ i. any_failed (tasks_by_deployment i tasks) ≡ true) same
        (any-get (λ t. is_task_status t.status TaskStatus.failed) u.id u tasks found f) in
    let (raises, kept) = settle-raises (tasks_by_deployment deployment_id tasks) d w failing s b in
    let ends =
      and_then-raised _ _ rest (settle (tasks_by_deployment deployment_id tasks) d w).1 raises in
    (ap (λ r. r.0) ends, ap (λ r. r.1.tasks) ends ∙ kept)

-- A task that is stored over another leaves the others there.
get-save_task :
    (key : String) (t : Task) (store : Dict Task) (u : Option Task)
    → str_eq t.id key ≡ false
    → task_by_id key store ≡ u
    → get key (save_task t (put t.id t store)) ≡ u
unfolding save_task task_by_id
get-save_task key t store u ne h =
    rw (get-put t.id key t (put t.id t store), ne, get-put t.id key t store, ne) h

task_by_id-save_task : (t : Task) (store : Dict Task) → task_by_id t.id (save_task t store) ≡ some t
unfolding task_by_id save_task
task_by_id-save_task t store = rw (get-put t.id t.id t store, (eq_iff t.id t.id).1 refl) refl

-- While a deployment is ROLLING_BACK, with a failed task and an intent that asks for rollbacks, the
-- report that another of its tasks has succeeded raises InvalidStateTransitionError, from
-- ROLLING_BACK to ROLLING_BACK, although the task is stored as SUCCEEDED by then.
pub handle_task_completion-rolling_back :
    (dump_spec : ResourceSpec → Json) (show : Dict Json → String) (task_id : String)
    (output : Option (Dict Json)) (error : String) (t u : Task) (d : Deployment) (w : World)
    → task_by_id task_id w.tasks ≡ some (record t { status = running })
    → task_by_id u.id w.tasks
      ≡ some (record u { status = TaskStatus.failed; deployment_id = t.deployment_id })
    → str_eq t.id u.id ≡ false
    → deployment_by_id t.deployment_id w.deployments
      ≡ some (record d {
        status = rolling_back;
        intent = record d.intent { rollback_on_failure = true };
      })
    → let (r, v) = handle_task_completion dump_spec show task_id true output error w in
      (r ≡ raised (invalid_state_transition rolling_back rolling_back))
      × (task_status_of (task_by_id t.id v.tasks) ≡ some succeeded)
unfolding handle_task_completion report_task record_completion result_of on_deployment on_task
    Deployment.methods Task.methods valid_transitions task_valid_transitions
    DeploymentStatus-discrete TaskStatus-discrete update_deployment update_task
handle_task_completion-rolling_back dump_spec show task_id output error t u d w h k ne g =
    rw (h, g)
      (let (raises, kept) =
          settle-ends t.deployment_id
            (record u { status = TaskStatus.failed; deployment_id = t.deployment_id }) _ _ _ _
            (get-save_task u.id _ w.tasks _ ne k) refl refl refl refl in
        (
          raises,
          ap (λ tasks. task_status_of (task_by_id t.id tasks)) kept
              ∙ ap task_status_of (task_by_id-save_task _ _),
        ))
