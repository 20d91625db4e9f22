-- ===== src/Infrastructure/InMemory/Acquire.antt =====
-- What a worker gets from the queue of tasks.
use multi_cloud_ai_orchestra.Base.{
  ◌≤◌, ◌≡◌, ◌≢◌, refl, sym, ap, subst, ◌∙◌, String, true, false, Option, none, some, List, [], ◌∷◌,
  arith, any, All, All-map, inl, inr, ◌⊎◌, Bool-cases, ok, Result, leb→le, Option-cases,
}
use mathlib.Core.Bool.{false≢true}
use mathlib.Core.Option.{some-injective, some-ne-none}
use mathlib.Core.List.{Memᴰ}
use multi_cloud_ai_orchestra.Base.Dict.{Dict, get, put, values}
use multi_cloud_ai_orchestra.Base.Keyed.{IsKeyed, get_of_mem, store-IsKeyed, get-store_self}
use multi_cloud_ai_orchestra.Base.Sort.{
  sorted, ascending, IsSorted, sort-IsSorted, ascending-IsTotal, mem_of_sort, All-of_sort, any-sort,
}
use multi_cloud_ai_orchestra.Domain.Status.{task_valid_transitions, acquired}
use multi_cloud_ai_orchestra.Domain.Errors.{Error}
use multi_cloud_ai_orchestra.Domain.Task
use multi_cloud_ai_orchestra.Domain.Task.{Task}
use multi_cloud_ai_orchestra.Infrastructure.InMemory.{
  TaskStore, is_queued, task_created_at, first_queued, acquire_in, acquire_next, save_task,
}

first_queued-none : (ts : List Task) → first_queued ts ≡ none → any is_queued ts ≡ false
unfolding first_queued
first_queued-none [] h = refl
first_queued-none (t ∷ ts) h = ground (arith, first_queued-none ts)

first_queued-some :
    (ts : List Task) {t : Task} → first_queued ts ≡ some t → (is_queued t ≡ true) × Memᴰ t ts
unfolding first_queued
first_queued-some [] h = cc
first_queued-some (u ∷ ts) {t} h = elim (Bool-cases (is_queued u)) [
  | inl q ↦
      let e : u ≡ t = some-injective u t (rw q at h) in
      (ap is_queued (sym e) ∙ q, Memᴰ.head (sym e))
  | inr f ↦ let (q, m) = first_queued-some ts (rw f at h) in (q, Memᴰ.tail m)
]

-- No queued task of a list was created before `t`.
abbrev pub IsOldest : Task → List Task → Type 0
IsOldest t ts = All (λ u. is_queued u ≡ true → t.created_at ≤ u.created_at) ts

first_queued-IsOldest :
    (ts : List Task) {t : Task}
    → IsSorted (ascending task_created_at) ts
    → first_queued ts ≡ some t
    → IsOldest t ts
unfolding first_queued
first_queued-IsOldest [] s h = tt
first_queued-IsOldest (u ∷ ts) {t} s h = elim (Bool-cases (is_queued u)) [
  | inl q ↦
      let e : u ≡ t = some-injective u t (rw q at h) in
      subst (λ v. IsOldest v (u ∷ ts)) e
        (
          λ _. omega arith,
          All-map (λ y. ascending task_created_at u y ≡ true)
              (λ y. is_queued y ≡ true → u.created_at ≤ y.created_at) ts (λ y le _. leb→le _ _ le)
              s.0,
        )
  | inr f ↦ (λ q. absurd (false≢true (sym f ∙ q)), first_queued-IsOldest ts s.1 (rw f at h))
]

-- What `acquire` does to a queued task.
acquire-queued :
    (worker : String) (t : Task) (s : TaskStore)
    → is_queued t ≡ true
    → (u : Task) × (acquire_in worker t s ≡ (
      ok (some u),
      record { tasks = save_task u s.tasks; ambient = (acquire_in worker t s).1.ambient },
    ))
      × (u.status ≡ acquired)
      × (u.worker_id ≡ some worker)
      × (u.id ≡ t.id)
unfolding acquire_in Task.methods task_valid_transitions
acquire-queued worker t s q = (
  (Task.acquire worker (record { self = t; ambient = s.ambient })).1.self,
  ground arith,
  ground arith,
  ground arith,
  ground arith,
)

-- `u` is what the worker gets: a queued task of the store, as old as any, now held by the worker.
pub record IsServed (worker : String) (tasks : Dict Task) (u : Task) : Type 0 where
  pub chosen : Task
  pub waiting : is_queued chosen ≡ true
  pub member : Memᴰ chosen (values tasks)
  pub oldest : IsOldest chosen (values tasks)
  pub same_id : u.id ≡ chosen.id
  pub status : u.status ≡ acquired
  pub holder : u.worker_id ≡ some worker

abbrev by_age : TaskStore → List Task
by_age s = sorted task_created_at (values s.tasks)

picks :
    (worker : String) (s : TaskStore) (t : Task)
    → first_queued (by_age s) ≡ some t
    → (P : Result Error (Option Task) × TaskStore → Type 0) → P (acquire_in worker t s)
    → P (acquire_next worker s)
unfolding acquire_next
picks worker s t e P h = rw (e, acquire_next) h

acquire_next-some :
    (worker : String) (s : TaskStore) (t : Task)
    → first_queued (by_age s) ≡ some t
    → (u : Task) × ((acquire_next worker s).0 ≡ ok (some u))
      × ((acquire_next worker s).1.tasks ≡ save_task u s.tasks)
      × IsServed worker s.tasks u
unfolding acquire_next
acquire_next-some worker s t e =
    let (waiting, place) = first_queued-some (by_age s) e in
    let order = ascending task_created_at in
    let (u, runs, status, holder, same_id) = acquire-queued worker t s waiting in
    (
      u,
      picks worker s t e (λ p. p.0 ≡ ok (some u)) (rw runs),
      picks worker s t e (λ p. p.1.tasks ≡ save_task u s.tasks) (rw runs),
      record {
        chosen = t;
        waiting = waiting;
        member = mem_of_sort order t (values s.tasks) place;
        oldest =
            All-of_sort order (λ v. is_queued v ≡ true → t.created_at ≤ v.created_at)
              (values s.tasks)
              (first_queued-IsOldest (by_age s)
                (sort-IsSorted (ascending-IsTotal task_created_at) (values s.tasks)) e);
        same_id = same_id;
        status = status;
        holder = holder;
      },
    )

-- `acquire_next` never raises. If no task of the store is queued, it returns None and changes
-- nothing. Otherwise it returns a task of the store that was queued, such that no queued task was
-- created before it, now ACQUIRED by the worker, and the store differs at this task's id alone.
pub acquire_next-cases :
    (worker : String) (s : TaskStore)
    → ((any is_queued (values s.tasks) ≡ false) × (acquire_next worker s ≡ (ok none, s)))
      ⊎ ((u : Task) × ((acquire_next worker s).0 ≡ ok (some u))
          × ((acquire_next worker s).1.tasks ≡ save_task u s.tasks)
          × IsServed worker s.tasks u)
unfolding acquire_next
acquire_next-cases worker s = elim (Option-cases (first_queued (by_age s))) [
  | inl e ↦ inl (
    sym (any-sort (ascending task_created_at) is_queued (values s.tasks))
        ∙ first_queued-none (by_age s) e,
    rw (e, acquire_next),
  )
  | inr (t, e) ↦ inr (acquire_next-some worker s t e)
]

abbrev pub task_id : Task → String
task_id t = t.id

ok-injective : (a b : Option Task) → ◌≡◌ {A = Result Error (Option Task)} (ok a) (ok b) → a ≡ b
ok-injective a b h = cc

served-differs :
    (worker : String) (tasks : Dict Task) (t u : Task)
    → IsKeyed task_id tasks
    → t.status ≡ acquired
    → IsServed worker (save_task t tasks) u
    → u.id ≢ t.id
unfolding save_task
served-differs worker tasks t u keyed held served same =
    let after = put t.id t tasks in
    let found =
      get_of_mem task_id after served.chosen (store-IsKeyed task_id t tasks keyed) served.member in
    let there = get-store_self task_id t tasks in
    let e : served.chosen ≡ t =
      some-injective served.chosen t
        (sym found ∙ ap (λ k. get k after) (sym served.same_id ∙ same) ∙ there) in
    not_queued t held (ap is_queued (sym e) ∙ served.waiting)
  where
    not_queued : (v : Task) → v.status ≡ acquired → is_queued v ≡ true → ⊥
    not_queued v h q = ground arith

pub served :
    (worker : String) (s : TaskStore) (u : Task)
    → (acquire_next worker s).0 ≡ ok (some u)
    → ((acquire_next worker s).1.tasks ≡ save_task u s.tasks) × IsServed worker s.tasks u
served worker s u h = elim (acquire_next-cases worker s) [
  | inl (_, nothing) ↦ absurd (some-ne-none u (ok-injective _ _ (sym h ∙ ap (λ r. r.0) nothing)))
  | inr (v, r, stored, good) ↦
      let e : v ≡ u = some-injective v u (ok-injective _ _ (sym r ∙ h)) in
      subst
        (λ w. ((acquire_next worker s).1.tasks ≡ save_task w s.tasks) × IsServed worker s.tasks w) e
        (stored, good)
]

-- Two workers that ask one after the other never get the same task, if the store holds every task
-- under its id.
pub acquire_next-exclusive :
    (first second : String) (s : TaskStore) (t u : Task)
    → IsKeyed task_id s.tasks
    → (acquire_next first s).0 ≡ ok (some t)
    → (acquire_next second (acquire_next first s).1).0 ≡ ok (some u)
    → u.id ≢ t.id
acquire_next-exclusive first second s t u keyed e k =
    let (stored, good) = served first s t e in
    let after = (acquire_next first s).1 in
    let (_, other) = served second after u k in
    served-differs second s.tasks t u keyed good.status
      (subst (λ tasks. IsServed second tasks u) stored other)
