-- ===== src/Infrastructure/InMemory/Queue.antt =====
-- The in-memory task store as the queue that workers count on.
use multi_cloud_ai_orchestra.Base.{
  ◌≡◌, refl, sym, ap, ◌∙◌, subst, String, str_eq, eq_iff, Bool, true, false, Option, none, some, ok,
  inl, inr, List, [], ◌∷◌, All, Bool-cases, if◌then◌else◌, arith,
}
use multi_cloud_ai_orchestra.Base.Dict.{Dict, get, get-put}
use multi_cloud_ai_orchestra.Base.Keyed.{IsKeyed, get_of_mem, store-IsKeyed}
use multi_cloud_ai_orchestra.Domain.Status.{acquired}
use multi_cloud_ai_orchestra.Domain.Task.{Task}
use multi_cloud_ai_orchestra.Domain.Ports.Queue.{IsQueue, IsDistinct, serve, serve-IsDistinct}
use multi_cloud_ai_orchestra.Infrastructure.InMemory.{
  TaskStore, is_queued, acquire_next, save_task, task_repository,
}
use multi_cloud_ai_orchestra.Infrastructure.InMemory.Acquire.{
  task_id, served, acquire_next-cases, IsServed,
}

-- A task that is queued.
abbrev task_waits : Option Task → Bool
task_waits none = false
task_waits (some t) = is_queued t

acquired-waits : (t : Task) → t.status ≡ acquired → is_queued t ≡ false
acquired-waits t h = ground arith

stays :
    (worker : String) (s : TaskStore)
    → IsKeyed task_id s.tasks
    → IsKeyed task_id (acquire_next worker s).1.tasks
unfolding save_task
stays worker s keyed = elim (acquire_next-cases worker s) [
  | inl (_, e) ↦ subst (λ p. IsKeyed task_id p.1.tasks) (sym e) keyed
  | inr (u, _, e, _) ↦ subst (IsKeyed task_id) (sym e) (store-IsKeyed task_id u s.tasks keyed)
]

saved-waits :
    (u : Task) (tasks : Dict Task) (k : String)
    → u.status ≡ acquired
    → task_waits (get k (save_task u tasks))
      ≡ (if str_eq u.id k then false else task_waits (get k tasks))
unfolding save_task
saved-waits u tasks k status =
    ap task_waits (get-put u.id k u tasks) ∙ elim (Bool-cases (str_eq u.id k)) [
      | inl here ↦ rw here (acquired-waits u status)
      | inr elsewhere ↦ rw elsewhere refl
    ]

chosen-waits :
    (worker : String) (tasks : Dict Task) (u : Task)
    → IsKeyed task_id tasks
    → IsServed worker tasks u
    → task_waits (get u.id tasks) ≡ true
chosen-waits worker tasks u keyed good =
    ap (λ k. task_waits (get k tasks)) good.same_id
    ∙ ap task_waits (get_of_mem task_id tasks good.chosen keyed good.member)
    ∙ good.waiting

taken :
    (worker : String) (s : TaskStore) (t : Task)
    → IsKeyed task_id s.tasks
    → (acquire_next worker s).0 ≡ ok (some t)
    → (task_waits (get t.id s.tasks) ≡ true)
      × (task_waits (get t.id (acquire_next worker s).1.tasks) ≡ false)
taken worker s t keyed h =
    let (stored, good) = served worker s t h in
    (
      chosen-waits worker s.tasks t keyed good,
      ap (λ tasks. task_waits (get t.id tasks)) stored
          ∙ saved-waits t s.tasks t.id good.status
          ∙ rw ((eq_iff t.id t.id).1 refl) refl,
    )

kept :
    (worker : String) (s : TaskStore) (k : String)
    → task_waits (get k (acquire_next worker s).1.tasks) ≡ true
    → task_waits (get k s.tasks) ≡ true
kept worker s k h = elim (acquire_next-cases worker s) [
  | inl (_, e) ↦ ap (λ p. task_waits (get k p.1.tasks)) (sym e) ∙ h
  | inr (u, _, stored, good) ↦ still_waits (str_eq u.id k) (task_waits (get k s.tasks)) (
      sym (ap (λ tasks. task_waits (get k tasks)) stored ∙ saved-waits u s.tasks k good.status) ∙ h)
]
  where
    still_waits : (here old : Bool) → (if here then false else old) ≡ true → old ≡ true
    still_waits here old e = ground arith

queue : IsQueue task_repository
queue = record {
  valid = λ s. IsKeyed task_id s.tasks;
  admits = λ worker. true;
  waiting = λ s k. task_waits (get k s.tasks);
  stays = λ worker s a keyed. stays worker s keyed;
  taken = λ worker s t a keyed. taken worker s t keyed;
  kept = λ worker s k a keyed. kept worker s k;
}

admits-All : (workers : List String) → All (λ worker. true ≡ true) workers
admits-All [] = tt
admits-All (worker ∷ workers) = (refl, admits-All workers)

pub serve_store-IsDistinct :
    (workers : List String) (s : TaskStore)
    → IsKeyed task_id s.tasks
    → IsDistinct (serve task_repository workers s)
unfolding queue
serve_store-IsDistinct workers s keyed =
    serve-IsDistinct task_repository queue workers s (admits-All workers) keyed
