-- ===== src/Domain/Ports/Queue.antt =====
-- The port TaskRepository as a queue: what its clients, the workers, count on.
use multi_cloud_ai_orchestra.Base.{
  ◌≡◌, ◌≢◌, refl, sym, ap, ◌∙◌, String, Bool, true, false, Option, none, some, List, [], ◌∷◌,
  Result, ok, raised, All, All-map,
}
use mathlib.Core.Bool.{false≢true}
use multi_cloud_ai_orchestra.Domain.Task.{Task}
use multi_cloud_ai_orchestra.Domain.Ports.{TaskRepository}

-- `valid` is the invariant of the adapter's state, `admits w` tells the names that it takes for a
-- worker, and `waiting s k` tells whether a worker may still get the task `k`. A task that a worker
-- gets was waiting and no longer is, and no call of acquire_next, however it ends, makes a task wait.
pub record IsQueue {E S : Type 0} (repository : TaskRepository E S) : Type 1 where
  pub valid : S → Type 0
  pub admits : String → Bool
  pub waiting : S → String → Bool
  pub stays :
      (worker_id : String) (s : S)
      → admits worker_id ≡ true
      → valid s
      → valid (repository.acquire_next worker_id s).1
  pub taken :
      (worker_id : String) (s : S) (t : Task)
      → admits worker_id ≡ true
      → valid s
      → (repository.acquire_next worker_id s).0 ≡ ok (some t)
      → (waiting s t.id ≡ true) × (waiting (repository.acquire_next worker_id s).1 t.id ≡ false)
  pub kept :
      (worker_id : String) (s : S) (k : String)
      → admits worker_id ≡ true
      → valid s
      → waiting (repository.acquire_next worker_id s).1 k ≡ true
      → waiting s k ≡ true

-- The id of the task that a call hands out, before those of the later calls.
abbrev pub handed : {E : Type 0} → Result E (Option Task) → List String → List String
handed (ok (some t)) ids = t.id ∷ ids
handed (ok none) ids = ids
handed (raised e) ids = ids

abbrev pub IsDistinct : List String → Type 0
IsDistinct [] = Unit
IsDistinct (k ∷ ks) = All (λ j. j ≢ k) ks × IsDistinct ks

module _ {E S : Type 0} (repository : TaskRepository E S) where
  -- The ids of the tasks that these workers get, one asking after the other.
  abbrev pub serve : List String → S → List String
  serve [] s = []
  serve (worker_id ∷ workers) s =
      handed (repository.acquire_next worker_id s).0
        (serve workers (repository.acquire_next worker_id s).1)

module _ {E S : Type 0} (repository : TaskRepository E S) (queue : IsQueue repository) where
  handed-All :
      (P : String → Type 0) (result : Result E (Option Task)) (ids : List String)
      → ((t : Task) → result ≡ ok (some t) → P t.id)
      → All P ids
      → All P (handed result ids)
  handed-All P (ok (some t)) ids h k = (h t refl, k)
  handed-All P (ok none) ids h k = k
  handed-All P (raised e) ids h k = k

  serve-waiting :
      (workers : List String) (s : S)
      → All (λ w. queue.admits w ≡ true) workers
      → queue.valid s
      → All (λ k. queue.waiting s k ≡ true) (serve repository workers s)
  serve-waiting [] s h g = tt
  serve-waiting (worker_id ∷ workers) s h g =
      let u = (repository.acquire_next worker_id s).1 in
      handed-All (λ k. queue.waiting s k ≡ true) (repository.acquire_next worker_id s).0
        (serve repository workers u) (λ t e. (queue.taken worker_id s t h.0 g e).0)
        (All-map (λ k. queue.waiting u k ≡ true) (λ k. queue.waiting s k ≡ true)
          (serve repository workers u) (λ k w. queue.kept worker_id s k h.0 g w)
          (serve-waiting workers u h.1 (queue.stays worker_id s h.0 g)))

  handed-IsDistinct :
      (result : Result E (Option Task)) (ids : List String)
      → ((t : Task) → result ≡ ok (some t) → All (λ j. j ≢ t.id) ids)
      → IsDistinct ids
      → IsDistinct (handed result ids)
  handed-IsDistinct (ok (some t)) ids h d = (h t refl, d)
  handed-IsDistinct (ok none) ids h d = d
  handed-IsDistinct (raised e) ids h d = d

  not_waiting :
      (u : S) (k j : String) → queue.waiting u k ≡ false → queue.waiting u j ≡ true → j ≢ k
  not_waiting u k j gone w e = false≢true (sym gone ∙ ap (queue.waiting u) (sym e) ∙ w)

  -- No two calls hand out the same task.
  pub serve-IsDistinct :
      (workers : List String) (s : S)
      → All (λ w. queue.admits w ≡ true) workers
      → queue.valid s
      → IsDistinct (serve repository workers s)
  serve-IsDistinct [] s h g = tt
  serve-IsDistinct (worker_id ∷ workers) s h g =
      let u = (repository.acquire_next worker_id s).1 in
      handed-IsDistinct (repository.acquire_next worker_id s).0 (serve repository workers u)
        (λ t e.
          All-map (λ k. queue.waiting u k ≡ true) (λ j. j ≢ t.id) (serve repository workers u)
            (λ j w. not_waiting u t.id j (queue.taken worker_id s t h.0 g e).1 w)
            (serve-waiting workers u h.1 (queue.stays worker_id s h.0 g)))
        (serve-IsDistinct workers u h.1 (queue.stays worker_id s h.0 g))
