-- ===== src/Infrastructure/Postgres/Tasks/Claimed.antt =====
-- What a worker gets from the task table.
use multi_cloud_ai_orchestra.Base.{
  ◌≡◌, refl, sym, ap, ◌∙◌, ℕ, ◌≤◌, String, str_eq, eq_iff, true, false, Option, none, some, arith,
  ok, raised, Result, Method, pure, and_then, ◌>>=◌, inl, inr, ◌⊎◌, if◌then◌else◌, leb→le,
}
use mathlib.Core.Bool.{false≢true}
use multi_cloud_ai_orchestra.Base.Sort.{ascending-IsTotal}
use multi_cloud_ai_orchestra.Domain.Status.{queued}
use multi_cloud_ai_orchestra.Domain.Enums.{task_status_value}
use multi_cloud_ai_orchestra.Domain.Task.{Task}
use multi_cloud_ai_orchestra.Infrastructure.Postgres.{Session, IsTable, RepositoryError}
use multi_cloud_ai_orchestra.Infrastructure.Postgres.Columns.{time}
use multi_cloud_ai_orchestra.Infrastructure.Postgres.Models.{TaskOrm, tasks, task_fits, fits_string}
use multi_cloud_ai_orchestra.Infrastructure.Postgres.Tasks.{
  task_to_domain, next_queued, claimed, claim, acquire_next, created_asc,
}

-- The row, ACQUIRED by the worker, and otherwise as it was.
abbrev pub as_acquired : String → TaskOrm → TaskOrm
as_acquired worker_id r = record r { status = "acquired"; worker_id = some worker_id }

claimed-fits :
    (worker_id : String) (r : TaskOrm)
    → task_fits r ≡ true
    → fits_string 100 worker_id ≡ true
    → task_fits (claimed worker_id r) ≡ true
unfolding task_fits claimed task_status_value
claimed-fits worker_id r h k = ground arith

module _ {S : Type 0} (session : Session S TaskOrm) (table : IsTable tasks session) where
  -- A row that the select of acquire_next may return.
  abbrev pub IsWaiting : S → String → TaskOrm → Type 0
  IsWaiting s k r =
      (table.lookup s k ≡ some r)
      × (table.locked s k ≡ false)
      × (r.status ≡ task_status_value queued)

  -- What the table holds after a row was claimed: the row is ACQUIRED by the worker.
  abbrev pub IsClaimed : String → S → TaskOrm → S → Type 0
  IsClaimed worker_id s r u =
      (t : ℕ) × ((k : String)
        → table.lookup u k ≡ (
            if str_eq r.id k
            then some (tasks.updated t (as_acquired worker_id r))
            else table.lookup s k))

  -- `r` is a queued row that is as old as any other that no transaction has locked.
  abbrev pub IsNext : S → TaskOrm → Type 0
  IsNext s r =
      (table.lookup s r.id ≡ some r)
      × (r.status ≡ task_status_value queued)
      × ((k : String) (other : TaskOrm)
          → IsWaiting s k other
          → time r.created_at ≤ time other.created_at)

  flushes :
      (worker_id : String) (r : TaskOrm) (s : S)
      → table.lookup s r.id ≡ some r
      → task_fits (claimed worker_id r) ≡ true
      → let (result, t) = session.flush (claimed worker_id r) s in
        (result ≡ ok tt) × IsClaimed worker_id s r t
  unfolding claimed
  flushes worker_id r s found fits =
      let (done, rows) = table.flush_object (claimed worker_id r) r s found fits (λ other. refl) in
      (done, (table.server_now s, rows))

  to_domain-state : (orm : TaskOrm) (s : S) → (task_to_domain orm s).1 ≡ s
  unfolding task_to_domain
  to_domain-state orm s = ground arith

  to_domain-id :
      (orm : TaskOrm) (s : S) (t : Task) → (task_to_domain orm s).0 ≡ ok t → t.id ≡ orm.id
  unfolding task_to_domain
  to_domain-id orm s t h = ground arith

  -- The end of acquire_next: the task of the claimed row as its attributes then read, or what the
  -- reading raises.
  abbrev pub finish : Result RepositoryError TaskOrm → Method RepositoryError S (Option Task)
  finish result = and_then result (λ row. task_to_domain row >>= λ task. pure (some task))

  finish-state : (result : Result RepositoryError TaskOrm) (s : S) → (finish result s).1 ≡ s
  unfolding task_to_domain
  finish-state (ok row) s = ground arith
  finish-state (raised e) s = refl

  finish-id :
      (result : Result RepositoryError TaskOrm) (s : S) (t : Task)
      → (finish result s).0 ≡ ok (some t)
      → (row : TaskOrm) × (result ≡ ok row) × (t.id ≡ row.id)
  unfolding task_to_domain
  finish-id (ok row) s t h = (row, refl, ground arith)
  finish-id (raised e) s t h = absurd cc

  abbrev pub finishes : String → TaskOrm → Method RepositoryError S (Option Task)
  finishes worker_id r v =
      finish (session.attributes (as_acquired worker_id r) v).0
        (session.attributes (as_acquired worker_id r) v).1

  finishes-keeps :
      (worker_id : String) (r : TaskOrm) (v : S) (k : String)
      → table.lookup (finishes worker_id r v).1 k ≡ table.lookup v k
  unfolding claimed
  finishes-keeps worker_id r v k =
      let (result, u) = session.attributes (claimed worker_id r) v in
      ap (λ w. table.lookup w k) (finish-state result u)
      ∙ (table.read_attributes (claimed worker_id r) v).0 k

  pub finishes-id :
      (worker_id : String) (r : TaskOrm) (v : S) (t : Task)
      → (finishes worker_id r v).0 ≡ ok (some t)
      → t.id ≡ r.id
  unfolding claimed
  finishes-id worker_id r v t h =
      let (result, u) = session.attributes (claimed worker_id r) v in
      let (row, e, same) = finish-id result u t h in
      same ∙ (table.read_attributes (claimed worker_id r) v).1 row e

  claim-flushed :
      (worker_id : String) (r : TaskOrm) (s : S)
      → (session.flush (claimed worker_id r) s).0 ≡ ok tt
      → claim session worker_id (some r) s
        ≡ finishes worker_id r (session.flush (claimed worker_id r) s).1
  unfolding claim claimed
  claim-flushed worker_id r s h = rw h refl

  select_next : S → Result RepositoryError (Option TaskOrm) × S
  select_next s = session.scalar_one_or_none next_queued s

  runs-none :
      (worker_id : String) (s : S)
      → (select_next s).0 ≡ ok none
      → acquire_next session worker_id s ≡ (ok none, (select_next s).1)
  unfolding acquire_next claim select_next
  runs-none worker_id s h = rw h refl

  runs-some :
      (worker_id : String) (r : TaskOrm) (s : S)
      → (select_next s).0 ≡ ok (some r)
      → (session.flush (claimed worker_id r) (select_next s).1).0 ≡ ok tt
      → acquire_next session worker_id s
        ≡ finishes worker_id r (session.flush (claimed worker_id r) (select_next s).1).1
  unfolding acquire_next select_next
  runs-some worker_id r s h flushed = rw h (claim-flushed worker_id r (select_next s).1 flushed)

  -- What the select of acquire_next finds.
  selects :
      (s : S)
      → ((k : String) → table.lookup (select_next s).1 k ≡ table.lookup s k)
        × ((((select_next s).0 ≡ ok none) × ((k : String) (r : TaskOrm) → IsWaiting s k r → ⊥))
            ⊎ ((r : TaskOrm) × ((select_next s).0 ≡ ok (some r)) × IsNext s r))
  unfolding select_next next_queued
  selects s =
      let (rows, found) =
        table.first_row next_queued created_asc s (ascending-IsTotal (λ r. time r.created_at)) refl
          refl refl in
      (
        rows,
        elim found [
          | inl (e, none_matches) ↦
              inl (e, λ k r w. false≢true (sym (none_matches k r w.0 w.1) ∙ is_queued r w.2))
          | inr (r, e, at, matches, oldest) ↦ inr (
            r,
            e,
            (
              at,
              (eq_iff r.status (task_status_value queued)).0 matches,
              λ k other w.
                  leb→le (time r.created_at) (time other.created_at)
                    (oldest k other w.0 w.1 (is_queued other w.2)),
            ),
          )
        ],
      )
    where
      is_queued :
          (r : TaskOrm)
          → r.status ≡ task_status_value queued
          → str_eq r.status (task_status_value queued) ≡ true
      is_queued r e = (eq_iff r.status (task_status_value queued)).1 e

  next-claimed :
      (worker_id : String) (r : TaskOrm) (s : S)
      → ((k : String) → table.lookup (select_next s).1 k ≡ table.lookup s k)
      → (select_next s).0 ≡ ok (some r)
      → IsNext s r
      → task_fits (claimed worker_id r) ≡ true
      → (v : S) × (acquire_next session worker_id s ≡ finishes worker_id r v)
        × IsClaimed worker_id s r (acquire_next session worker_id s).1
  next-claimed worker_id r s rows e next fits =
      let t = (select_next s).1 in
      let (flushed, (now, changed)) = flushes worker_id r t (rows r.id ∙ next.0) fits in
      let v = (session.flush (claimed worker_id r) t).1 in
      let run = runs-some worker_id r s e flushed in
      (
        v,
        run,
        (
          now,
          λ k.
              ap (λ p. table.lookup p.1 k) run
              ∙ finishes-keeps worker_id r v k
              ∙ changed k
              ∙ rw (rows k) refl,
        ),
      )

  -- For a worker whose name fits its column, acquire_next either returns None, changes no row and has found no queued task that no other transaction has
  -- locked; or it picks a queued row, created no later than any queued row that is not locked,
  -- changes this row alone, to ACQUIRED with the worker's name and at the same version, and returns
  -- the task of this row as its attributes then read, or raises what the reading raises.
  pub acquire_next-claims :
      (worker_id : String) (s : S)
      → fits_string 100 worker_id ≡ true
      → let (result, u) = acquire_next session worker_id s in
        ((result ≡ ok none)
          × ((k : String) → table.lookup u k ≡ table.lookup s k)
          × ((k : String) (r : TaskOrm) → IsWaiting s k r → ⊥))
        ⊎ ((r : TaskOrm) × IsNext s r
            × IsClaimed worker_id s r u
            × ((v : S) × (acquire_next session worker_id s ≡ finishes worker_id r v)))
  acquire_next-claims worker_id s fits =
      let (rows, found) = selects s in
      elim found [
        | inl (e, nothing) ↦
            let run = runs-none worker_id s e in
            inl (ap (λ p. p.0) run, λ k. ap (λ p. table.lookup p.1 k) run ∙ rows k, nothing)
        | inr (r, e, next) ↦
            let (v, run, changed) =
              next-claimed worker_id r s rows e next
                (claimed-fits worker_id r (table.rows_fit r.id r s next.0) fits) in
            inr (r, next, changed, (v, run))
      ]
