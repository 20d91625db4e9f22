-- ===== src/Infrastructure/Postgres/Tasks/Queue.antt =====
-- The task table as the queue that workers count on.
use multi_cloud_ai_orchestra.Base.{
  ◌≡◌, ◌≢◌, refl, sym, ap, ◌∙◌, String, str_eq, eq_iff, Bool, true, false, Option, none, some, ok,
  Result, inl, inr, List, All, Bool-cases, if◌then◌else◌, arith,
}
use multi_cloud_ai_orchestra.Domain.Status.{queued}
use multi_cloud_ai_orchestra.Domain.Enums.{task_status_value}
use multi_cloud_ai_orchestra.Domain.Task.{Task}
use multi_cloud_ai_orchestra.Domain.Ports.Queue.{IsQueue, IsDistinct, serve, serve-IsDistinct}
use multi_cloud_ai_orchestra.Infrastructure.Postgres.{Session, IsTable, RepositoryError}
use multi_cloud_ai_orchestra.Infrastructure.Postgres.Models.{TaskOrm, tasks, fits_string}
use multi_cloud_ai_orchestra.Infrastructure.Postgres.Tasks.{claimed, acquire_next, task_repository}
use multi_cloud_ai_orchestra.Infrastructure.Postgres.Tasks.Claimed.{
  IsClaimed, acquire_next-claims, finishes-id,
}

-- A row whose status is `queued`.
abbrev row_waits : Option TaskOrm → Bool
row_waits none = false
row_waits (some r) = str_eq r.status "queued"

module _ {S : Type 0} (session : Session S TaskOrm) (table : IsTable tasks session) where
  claimed-waits :
      (worker_id : String) (s u : S) (r : TaskOrm)
      → IsClaimed session table worker_id s r u
      → (k : String)
      → row_waits (table.lookup u k)
        ≡ (if str_eq r.id k then false else row_waits (table.lookup s k))
  unfolding claimed task_status_value
  claimed-waits worker_id s u r (t, rows) k = elim (Bool-cases (str_eq r.id k)) [
    | inl here ↦ ap row_waits (rows k) ∙ rw here refl
    | inr elsewhere ↦ ap row_waits (rows k) ∙ rw elsewhere refl
  ]

  none-some : (t : Task) → ◌≢◌ {A = Result RepositoryError (Option Task)} (ok none) (ok (some t))
  none-some t e = cc

  handed_out :
      (worker_id : String) (s u : S) (r : TaskOrm) (t : Task)
      → table.lookup s r.id ≡ some r
      → r.status ≡ task_status_value queued
      → IsClaimed session table worker_id s r u
      → t.id ≡ r.id
      → (row_waits (table.lookup s t.id) ≡ true) × (row_waits (table.lookup u t.id) ≡ false)
  unfolding task_status_value
  handed_out worker_id s u r t at status changed same = (
    ap (λ k. row_waits (table.lookup s k)) same
        ∙ ap row_waits at
        ∙ (eq_iff r.status "queued").1 status,
    claimed-waits worker_id s u r changed t.id ∙ rw ((eq_iff r.id t.id).1 (sym same)) refl,
  )

  taken :
      (worker_id : String) (s : S) (t : Task)
      → fits_string 100 worker_id ≡ true
      → (acquire_next session worker_id s).0 ≡ ok (some t)
      → (row_waits (table.lookup s t.id) ≡ true)
        × (row_waits (table.lookup (acquire_next session worker_id s).1 t.id) ≡ false)
  taken worker_id s t fits h = elim (acquire_next-claims session table worker_id s fits) [
    | inl (nothing, _, _) ↦ absurd (none-some t (sym nothing ∙ h))
    | inr (r, (at, status, _), changed, (v, run)) ↦
        handed_out worker_id s (acquire_next session worker_id s).1 r t at status changed
          (finishes-id session table worker_id r v t (sym (ap (λ p. p.0) run) ∙ h))
  ]

  still_waits : (here old : Bool) → (if here then false else old) ≡ true → old ≡ true
  still_waits here old h = ground arith

  kept :
      (worker_id : String) (s : S) (k : String)
      → fits_string 100 worker_id ≡ true
      → row_waits (table.lookup (acquire_next session worker_id s).1 k) ≡ true
      → row_waits (table.lookup s k) ≡ true
  kept worker_id s k fits h = elim (acquire_next-claims session table worker_id s fits) [
    | inl (_, rows, _) ↦ ap row_waits (sym (rows k)) ∙ h
    | inr (r, next, changed, _) ↦
        still_waits (str_eq r.id k) (row_waits (table.lookup s k))
          (sym (claimed-waits worker_id s (acquire_next session worker_id s).1 r changed k) ∙ h)
  ]

  queue : IsQueue (task_repository session)
  queue = record {
    valid = λ s. Unit;
    admits = fits_string 100;
    waiting = λ s k. row_waits (table.lookup s k);
    stays = λ worker_id s fits v. tt;
    taken = λ worker_id s t fits v. taken worker_id s t fits;
    kept = λ worker_id s k fits v. kept worker_id s k fits;
  }

  pub serve_table-IsDistinct :
      (workers : List String) (s : S)
      → All (λ worker_id. fits_string 100 worker_id ≡ true) workers
      → IsDistinct (serve (task_repository session) workers s)
  unfolding queue
  serve_table-IsDistinct workers s fits =
      serve-IsDistinct (task_repository session) queue workers s fits tt
