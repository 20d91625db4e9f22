-- ===== src/Services/Deployments/Planning.antt =====
-- plan_deployment: the lock, and what a plan leads to.
use multi_cloud_ai_orchestra.Base.{
  ◌≡◌, refl, sym, ap, ◌∙◌, String, Bool, true, false, List, [], ◌∷◌, ◌++◌, Option, none, some, ok,
  raised, inl, inr, Bool-cases, Result, if◌then◌else◌, map, arith, eq_iff,
}
use mathlib.Core.List.{append-nil, append_assoc}
use multi_cloud_ai_orchestra.Base.Relates.{
  Relates, IsPreorder, Relates-bind, Relates-then, Relates-pure, Relates-skip,
}
use multi_cloud_ai_orchestra.Domain.Status.{
  DeploymentStatus, pending, approved, awaiting_approval, valid_transitions,
  DeploymentStatus-discrete,
}
use multi_cloud_ai_orchestra.Domain.Events.{DomainEvent, event_type}
use multi_cloud_ai_orchestra.Domain.Errors.{Error}
use multi_cloud_ai_orchestra.Domain.Entity.{after_now}
use multi_cloud_ai_orchestra.Domain.Plan.{DeploymentIntent, ExecutionPlan}
use multi_cloud_ai_orchestra.Base.Dict.{Dict, put, get-put}
use multi_cloud_ai_orchestra.Infrastructure.InMemory.{deployment_by_id, save_deployment}
use multi_cloud_ai_orchestra.Infrastructure.Planning.Generate.{generate_plan}
use multi_cloud_ai_orchestra.Domain.Deployment
use multi_cloud_ai_orchestra.Domain.Deployment.{Deployment}
use multi_cloud_ai_orchestra.Services.World.{
  World, clear_events, clear_events-keeps, published_types-append, published_types, acquire,
  release, publish, publish_all, publish_events, on_deployment, find_deployment, update_deployment,
  lock_acquire, lock_release,
}
use multi_cloud_ai_orchestra.Services.Deployments.{
  plan_deployment, plan_locked, engine_plan, planning_key,
}

-- The lock has been left alone, and so have the tasks.
record KeepsLock (w v : World) : Type 0 where
  lock_calls : v.lock_calls ≡ w.lock_calls

KeepsLock-order : IsPreorder KeepsLock
KeepsLock-order = record {
  same = λ w. record { lock_calls = refl };
  join = λ w v u p q. record { lock_calls = q.lock_calls ∙ p.lock_calls };
}

find_deployment-KeepsLock : (id : String) → Relates KeepsLock (find_deployment id)
unfolding find_deployment
find_deployment-KeepsLock id = record { at = λ w. ground arith }

on_deployment-KeepsLock :
    (d : Deployment) (m : Deployment.Action) → Relates KeepsLock (on_deployment d m)
unfolding on_deployment
on_deployment-KeepsLock d m = record { at = λ w. ground arith }

engine_plan-KeepsLock : (intent : DeploymentIntent) → Relates KeepsLock (engine_plan intent)
unfolding engine_plan
engine_plan-KeepsLock intent = record { at = λ w. record { lock_calls = refl } }

update_deployment-KeepsLock : (d : Deployment) → Relates KeepsLock (update_deployment d)
unfolding update_deployment
update_deployment-KeepsLock d = record { at = λ w. record { lock_calls = refl } }

publish_all-KeepsLock : (es : List DomainEvent) → Relates KeepsLock (publish_all es)
unfolding publish_all publish
publish_all-KeepsLock [] = Relates-skip KeepsLock-order
publish_all-KeepsLock (e ∷ es) = record {
  at = λ w. record { lock_calls = ((publish_all-KeepsLock es).at _).lock_calls };
}

publish_events-KeepsLock : (d : Deployment) → Relates KeepsLock (publish_events d)
unfolding publish_events
publish_events-KeepsLock d = record {
  at = λ w. record { lock_calls = ((publish_all-KeepsLock d.domain_events).at _).lock_calls };
}

ruleset rules = (
  KeepsLock-order, find_deployment-KeepsLock, on_deployment-KeepsLock, engine_plan-KeepsLock,
  update_deployment-KeepsLock, publish_events-KeepsLock, Relates-bind, Relates-then, Relates-pure,
)

plan_locked-KeepsLock : (id : String) → Relates KeepsLock (plan_locked id)
unfolding plan_locked
plan_locked-KeepsLock id = search rules depth 12

-- plan_deployment asks for the planning lock of its deployment once. If it gets the lock it releases
-- it once, at the end, whether planning returns or raises; if it does not, it releases nothing.
pub plan_deployment-lock :
    (id : String) (w : World)
    → let key = planning_key id in
      let answer = w.lock_answers 0 in
      (plan_deployment id w).1.lock_calls
      ≡ w.lock_calls ++ acquire key answer ∷ [] ++ (if answer then release key ∷ [] else [])
unfolding plan_deployment lock_acquire lock_release
plan_deployment-lock id w = elim (Bool-cases (w.lock_answers 0)) [
  | inl t ↦ rw t (
      ap (λ calls. calls ++ release (planning_key id) ∷ [])
        ((plan_locked-KeepsLock id).at _).lock_calls)
  | inr f ↦ rw f (sym (append-nil _))
]

-- A deployment as the caller of a service sees it.
abbrev pub outcome : Result Error Deployment → Option (DeploymentStatus × Option ExecutionPlan)
outcome (ok d) = some (d.status, d.plan)
outcome (raised e) = none

-- A stored deployment, seen in the same way.
abbrev pub stored_outcome : Option Deployment → Option (DeploymentStatus × Option ExecutionPlan)
stored_outcome none = none
stored_outcome (some d) = some (d.status, d.plan)

stored_outcome-put :
    (e : Deployment) (store : Dict Deployment)
    → stored_outcome (deployment_by_id e.id (put e.id e store)) ≡ some (e.status, e.plan)
unfolding deployment_by_id
stored_outcome-put e store = rw (get-put e.id e.id e store, (eq_iff e.id e.id).1 refl) refl

stored_outcome-clear :
    (e : Deployment) (store : Dict Deployment)
    → stored_outcome (deployment_by_id e.id (clear_events e.id (put e.id e store)))
      ≡ some (e.status, e.plan)
stored_outcome-clear e store =
    clear_events-keeps stored_outcome (λ d. refl) e.id e.id (put e.id e store)
    ∙ stored_outcome-put e store

abbrev with_auto : Bool → Deployment → Deployment
with_auto auto d = record d { intent = record d.intent { auto_approve = auto } }

plan_deployment-plans_auto :
    (id : String) (auto : Bool) (d : Deployment) (w : World)
    → deployment_by_id id w.deployments
      ≡ some (record (with_auto auto d) { status = pending; domain_events = [] })
    → w.lock_answers 0 ≡ true
    → let (r, v) = plan_deployment id w in
      let status = if auto then approved else awaiting_approval in
      let planned : Option (DeploymentStatus × Option ExecutionPlan) =
        some (status, some (generate_plan (with_auto auto d).intent (after_now w.ambient)).0) in
      (outcome r ≡ planned)
      × (stored_outcome (deployment_by_id d.id v.deployments) ≡ planned)
      × (published_types v
          ≡ published_types w
            ++ "deployment.plan_generated" ∷ (if auto then "deployment.approved" ∷ [] else []))
unfolding plan_deployment plan_locked lock_acquire lock_release find_deployment on_deployment
    Deployment.methods valid_transitions DeploymentStatus-discrete engine_plan update_deployment
    publish_events publish_all publish event_type save_deployment
plan_deployment-plans_auto id true d w h l =
    rw (l, h)
      (
        refl,
        stored_outcome-clear _ _,
        ap (map (λ p. p.0)) (append_assoc w.published (_ ∷ []) (_ ∷ []))
            ∙ published_types-append w.published _,
      )
plan_deployment-plans_auto id false d w h l =
    rw (l, h) (refl, stored_outcome-clear _ _, published_types-append w.published _)

-- Where the lock is free and the deployment is PENDING with no event to be published, plan_deployment
-- returns it with a plan that the engine generated for its intent, APPROVED if the intent asks for
-- auto-approval and AWAITING_APPROVAL if not, stores it with this status and plan, and publishes one event for the plan and
-- one for the approval if there was one.
pub plan_deployment-plans :
    (id : String) (d : Deployment) (w : World)
    → deployment_by_id id w.deployments ≡ some (record d { status = pending; domain_events = [] })
    → w.lock_answers 0 ≡ true
    → let (r, v) = plan_deployment id w in
      let status = if d.intent.auto_approve then approved else awaiting_approval in
      let planned : Option (DeploymentStatus × Option ExecutionPlan) =
        some (status, some (generate_plan d.intent (after_now w.ambient)).0) in
      (outcome r ≡ planned)
      × (stored_outcome (deployment_by_id d.id v.deployments) ≡ planned)
      × (published_types v
          ≡ published_types w
            ++ "deployment.plan_generated"
              ∷ (if d.intent.auto_approve then "deployment.approved" ∷ [] else []))
plan_deployment-plans id d w h l = plan_deployment-plans_auto id d.intent.auto_approve d w h l
