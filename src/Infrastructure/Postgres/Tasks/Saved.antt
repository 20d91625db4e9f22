-- ===== src/Infrastructure/Postgres/Tasks/Saved.antt =====
-- What the task repository gives back of a task that it has saved and updated.

use multi_cloud_ai_orchestra.Base.{
  then-pure, ◌≡◌, refl, ℕ, String, str_eq, true, false, none, some, ok, ◌≢◌,
}
use multi_cloud_ai_orchestra.Domain.Enums.{
  task_status_of-task_status_value, provider_of-provider_value,
}
use multi_cloud_ai_orchestra.Domain.Task.{Task}
use multi_cloud_ai_orchestra.Infrastructure.Postgres.{Session, IsTable}
use multi_cloud_ai_orchestra.Infrastructure.Postgres.Kept.{
  after_add, after_update, added, added_row, updated, updated_row, updated_others,
}
use multi_cloud_ai_orchestra.Infrastructure.Postgres.Models.{TaskOrm, tasks, task_fits}
use multi_cloud_ai_orchestra.Infrastructure.Postgres.Tasks.{
  task_to_orm, task_to_domain, task_values, save_task, task_by_id, update_task,
}

-- The task as the repository reads it back: the server's times stand for its own, and the times of
-- its start and its end are lost.
abbrev pub stored : ℕ → Task → Task
stored t task = record task {
  entity = record task.entity { created_at = t; updated_at = t };
  started_at = none;
  completed_at = none;
}

-- What an update writes of `new` over a task that is stored.
abbrev pub revised : ℕ → Task → Task → Task
revised t old new = record old {
  entity = record old.entity { updated_at = t; version = new.version };
  status = new.status;
  worker_id = new.worker_id;
  attempt_number = new.attempt_number;
  output_data = new.output_data;
  error_message = new.error_message;
}

module _ {S : Type 0} (session : Session S TaskOrm) (table : IsTable tasks session) where
  -- The row of a task that is saved.
  abbrev row : ℕ → Task → TaskOrm
  row t task = tasks.inserted t (task_to_orm task)

  row-to_domain :
      (t : ℕ) (task : Task) (s : S) → task_to_domain (row t task) s ≡ (ok (stored t task), s)
  unfolding task_to_domain task_to_orm
  row-to_domain t task s =
      rw (task_status_of-task_status_value task.status, provider_of-provider_value task.provider)
        refl

  get_row :
      (k : String) (s : S) {r : TaskOrm} {task : Task}
      → table.lookup s k ≡ some r
      → task_to_domain r s ≡ (ok task, s)
      → task_by_id session k s ≡ (ok (some task), s)
  unfolding task_by_id
  get_row k s found e = rw (table.by_identity k s, found, e) refl

  -- The row of a saved task after an update.
  abbrev revised_row : ℕ → ℕ → Task → Task → TaskOrm
  revised_row t t' old new = tasks.updated t' (task_values new (row t old))

  revised_row-to_domain :
      (t t' : ℕ) (old new : Task) (s : S)
      → new.started_at ≡ none
      → new.completed_at ≡ none
      → task_to_domain (revised_row t t' old new) s ≡ (ok (revised t' (stored t old) new), s)
  unfolding task_to_domain task_to_orm task_values
  revised_row-to_domain t t' old new s fresh unfinished =
      rw
        (
          task_status_of-task_status_value new.status,
          provider_of-provider_value old.provider,
          fresh,
          unfinished,
        )
        refl

  saved :
      (task : Task) (s : S)
      → (session.add (task_to_orm task) s).0 ≡ ok tt
      → save_task session task s ≡ (ok task, (session.add (task_to_orm task) s).1)
  unfolding save_task
  saved task s h = then-pure (session.add (task_to_orm task)) tt task s h

  revises :
      (task : Task) (s : S)
      → (session.update (λ r. str_eq r.id task.id) (task_values task) s).0 ≡ ok tt
      → update_task session task s
        ≡ (ok task, (session.update (λ r. str_eq r.id task.id) (task_values task) s).1)
  unfolding update_task
  revises task s h =
      then-pure (session.update (λ r. str_eq r.id task.id) (task_values task)) tt task s h

  values_id : (new : Task) (r : TaskOrm) → tasks.identity (task_values new r) ≡ tasks.identity r
  unfolding task_values
  values_id new r = refl

  values_clashes :
      (new : Task) (r other : TaskOrm)
      → tasks.clashes (task_values new r) other ≡ tasks.clashes r other
  unfolding task_values
  values_clashes new r other = refl

  same_id : (old new : Task) → new.id ≡ old.id → new.id ≡ tasks.identity (task_to_orm old)
  unfolding task_to_orm
  same_id old new e = e

  -- A task that fits the columns, and whose id and idempotency key no row has, is saved: then the
  -- repository finds it under its id, with the server's time for its two times and without the times
  -- of its start and its end. Then an update with a task of this id that has neither of these times
  -- and fits the columns writes the status, the worker, the attempt, the output, the error message
  -- and the version, and nothing else of what the repository then finds. No other row changes.
  pub task_by_id-update_task :
      (old new : Task) (s : S)
      → task_fits (task_to_orm old) ≡ true
      → ((k : String) (r : TaskOrm)
          → table.lookup s k ≡ some r
          → tasks.clashes (task_to_orm old) r ≡ false)
      → new.id ≡ old.id
      → new.started_at ≡ none
      → new.completed_at ≡ none
      → task_fits (task_values new (row (table.server_now s) old)) ≡ true
      → let (result, t) = save_task session old s in
        let (result', u) = update_task session new t in
        (result ≡ ok old)
        × (task_by_id session old.id t ≡ (ok (some (stored (table.server_now s) old)), t))
        × (result' ≡ ok new)
        × (task_by_id session old.id u
            ≡ (ok (some (revised (table.server_now t) (stored (table.server_now s) old) new)), u))
        × ((k : String) → k ≢ old.id → table.lookup u k ≡ table.lookup s k)
  unfolding task_to_orm
  task_by_id-update_task old new s fits alone same fresh unfinished fits_new =
      let r = task_to_orm old in
      let t = table.server_now s in
      let later = after_add tasks session table r s fits alone in
      let last =
        after_update tasks session table r s fits alone new.id (same_id old new same)
          (task_values new) (values_id new) (values_clashes new) fits_new in
      rw
        (
          saved old s (added tasks session table r s fits alone),
          revises new later (
              updated tasks session table r s fits alone new.id (same_id old new same)
                (task_values new) (values_id new) (values_clashes new) fits_new),
        )
        (
          refl,
          get_row old.id later (added_row tasks session table r s fits alone)
              (row-to_domain t old later),
          refl,
          get_row old.id last
              (updated_row tasks session table r s fits alone new.id (same_id old new same)
                (task_values new) (values_id new) (values_clashes new) fits_new)
              (revised_row-to_domain t (table.server_now later) old new last fresh unfinished),
          updated_others tasks session table r s fits alone new.id (same_id old new same)
              (task_values new) (values_id new) (values_clashes new) fits_new,
        )
