-- ===== src/Services/World.antt =====
-- What the domain services act on: the stores of the in-memory repositories, the events that the
-- publisher was given, the distributed lock, and the outside world.
use multi_cloud_ai_orchestra.Base.{
  Result, gets, or_raise, ℕ, suc, String, Bool, List, [], ◌∷◌, ◌++◌, Option, none, some, Method, ok,
  raised, ◌>>=◌, ◌>>◌, modify, skip, map, ◌≡◌, refl, ap, eq_iff, str_eq, inl, inr, Bool-cases,
  if◌then◌else◌,
}
use multi_cloud_ai_orchestra.Base.Dict.{Dict, get, put, get-put}
use multi_cloud_ai_orchestra.Domain.Status.{DeploymentStatus, TaskStatus}
use multi_cloud_ai_orchestra.Domain.Entity.{Ambient}
use multi_cloud_ai_orchestra.Domain.Events.{DomainEvent, event_type}
use multi_cloud_ai_orchestra.Domain.Errors.{Error, deployment_not_found}
use multi_cloud_ai_orchestra.Domain.Deployment
use multi_cloud_ai_orchestra.Domain.Deployment.{Deployment}
use multi_cloud_ai_orchestra.Domain.Task
use multi_cloud_ai_orchestra.Domain.Task.{Task}
use multi_cloud_ai_orchestra.Infrastructure.InMemory.{save_deployment, deployment_by_id, save_task}

-- The payloads of published events. `dumped e` is the dictionary `e.model_dump()`.
pub data Payload : Type 0 where
  dumped : DomainEvent → Payload
  created : (deployment_id tenant_id : String) → Payload

-- The calls of the port DistributedLock, with the answers of `acquire`.
pub data LockCall : Type 0 where
  acquire : (key : String) (acquired : Bool) → LockCall
  release : (key : String) → LockCall

pub record World : Type 0 where
  pub deployments : Dict Deployment
  pub tasks : Dict Task
  pub published : List (String × Payload)
  pub lock_calls : List LockCall
  pub lock_answers : ℕ → Bool
  pub ambient : Ambient

abbrev pub Service : Type 0 → Type 0
Service A = Method Error World A

-- `publish` of the port EventPublisher
unfoldable pub publish : String → Payload → Service (Unit {0})
publish type payload = modify (λ w. record w { published = w.published ++ (type, payload) ∷ [] })

-- `acquire` of the port DistributedLock, whose answer comes from outside
unfoldable pub lock_acquire : String → Service Bool
lock_acquire key w =
    let answer = w.lock_answers 0 in
    (
      ok answer,
      record w {
        lock_calls = w.lock_calls ++ acquire key answer ∷ [];
        lock_answers = λ n. w.lock_answers (suc n);
      },
    )

-- `release` of the port DistributedLock
unfoldable pub lock_release : String → World → World
lock_release key w = record w { lock_calls = w.lock_calls ++ release key ∷ [] }

abbrev pub returned : {E S A B : Type 0} → B → Result E A × S → Result E B × S
returned b (ok a, s) = (ok b, s)
returned b (raised e, s) = (raised e, s)

-- A method call on an object that the deployment store holds under its id: what the method changes
-- is changed in the store, also when it raises. The object comes back as it is then.
unfoldable pub on_deployment : Deployment → Deployment.Action → Service Deployment
on_deployment d method w =
    let (r, live) = method (record { self = d; ambient = w.ambient }) in
    returned live.self (
      r,
      record w { deployments = put live.self.id live.self w.deployments; ambient = live.ambient },
    )

-- The same for a task of the task store.
unfoldable pub on_task : Task → Task.Action → Service Task
on_task t method w =
    let (r, live) = method (record { self = t; ambient = w.ambient }) in
    returned live.self
      (r, record w { tasks = put live.self.id live.self w.tasks; ambient = live.ambient })

-- `self._deployment_repo.get_by_id(deployment_id)`, and DeploymentNotFoundError if it is None
unfoldable pub find_deployment : String → Service Deployment
find_deployment id = do
  found ← gets (λ w. deployment_by_id id w.deployments)
  or_raise found (deployment_not_found id)

-- `self._deployment_repo.update(deployment)`
unfoldable pub update_deployment : Deployment → Service (Unit {0})
update_deployment d = modify (λ w. record w { deployments = save_deployment d w.deployments })

-- `self._task_repo.update(task)`, and `save`
unfoldable pub update_task : Task → Service (Unit {0})
update_task t = modify (λ w. record w { tasks = save_task t w.tasks })

unfoldable pub publish_all : List DomainEvent → Service (Unit {0})
publish_all [] = skip
publish_all (e ∷ es) = publish (event_type e.body) (dumped e) >> publish_all es

-- collect_events on the aggregate with this id that the store holds: its events are cleared.
unfoldable pub clear_events : String → Dict Deployment → Dict Deployment
clear_events id [] = []
clear_events id ((key, d) ∷ store) =
    let rest = clear_events id store in
    if str_eq key id then (key, record d { domain_events = [] }) ∷ store else (key, d) ∷ rest

-- DeploymentDomainService._publish_events: the events are collected, and so cleared, first.
unfoldable pub publish_events : Deployment → Service (Unit {0})
publish_events d w =
    publish_all d.domain_events (record w { deployments = clear_events d.id w.deployments })

-- What a reader of a store learns of the progress of a deployment or a task.
abbrev pub status_of : Option Deployment → Option DeploymentStatus
status_of none = none
status_of (some d) = some d.status

abbrev pub task_status_of : Option Task → Option TaskStatus
task_status_of none = none
task_status_of (some t) = some t.status

abbrev pub status_in : String → Dict Deployment → Option DeploymentStatus
status_in id store = status_of (deployment_by_id id store)

abbrev pub published_types : World → List String
published_types w = map (λ p. p.0) w.published

-- Clearing events changes nothing else of a stored deployment.
pub clear_events-keeps :
    {X : Type 0} (seen : Option Deployment → X)
    → ((d : Deployment) → seen (some (record d { domain_events = [] })) ≡ seen (some d))
    → (key id : String) (store : Dict Deployment)
    → seen (deployment_by_id key (clear_events id store)) ≡ seen (deployment_by_id key store)
unfolding clear_events deployment_by_id get
clear_events-keeps seen blind key id [] = refl
clear_events-keeps seen blind key id ((k, d) ∷ store) = elim (Bool-cases (str_eq k id)) [
  | inl same ↦ rw same (elim (Bool-cases (str_eq k key)) [
    | inl found ↦ rw found (blind d)
    | inr other ↦ rw other refl
  ])
  | inr differ ↦ rw differ (elim (Bool-cases (str_eq k key)) [
    | inl found ↦ rw found refl
    | inr other ↦ rw other (clear_events-keeps seen blind key id store)
  ])
]

pub status_in-put :
    (e : Deployment) (store : Dict Deployment) → status_in e.id (put e.id e store) ≡ some e.status
unfolding deployment_by_id
status_in-put e store = rw (get-put e.id e.id e store, (eq_iff e.id e.id).1 refl) refl

pub published_types-append :
    (published later : List (String × Payload))
    → map (λ p. p.0) (published ++ later) ≡ map (λ p. p.0) published ++ map (λ p. p.0) later
published_types-append [] later = refl
published_types-append (p ∷ ps) later = ap (λ rest. p.0 ∷ rest) (published_types-append ps later)

pub publish_all-ok : (es : List DomainEvent) (w : World) → (publish_all es w).0 ≡ ok tt
unfolding publish_all publish
publish_all-ok [] w = refl
publish_all-ok (e ∷ es) w = publish_all-ok es _

pub publish_all-deployments :
    (es : List DomainEvent) (w : World) → (publish_all es w).1.deployments ≡ w.deployments
unfolding publish_all publish
publish_all-deployments [] w = refl
publish_all-deployments (e ∷ es) w = publish_all-deployments es _

pub publish_all-tasks : (es : List DomainEvent) (w : World) → (publish_all es w).1.tasks ≡ w.tasks
unfolding publish_all publish
publish_all-tasks [] w = refl
publish_all-tasks (e ∷ es) w = publish_all-tasks es _
