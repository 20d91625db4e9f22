-- ===== src/Infrastructure/Queues.antt =====
-- Both task repositories as the queue of the port TaskRepository.
use multi_cloud_ai_orchestra.Base.{◌≡◌, String, true, List, All}
use multi_cloud_ai_orchestra.Base.Keyed.{IsKeyed}
use multi_cloud_ai_orchestra.Domain.Ports.Queue.{IsDistinct, serve}
use multi_cloud_ai_orchestra.Infrastructure.InMemory
use multi_cloud_ai_orchestra.Infrastructure.InMemory.{TaskStore}
use multi_cloud_ai_orchestra.Infrastructure.InMemory.Acquire.{task_id}
use multi_cloud_ai_orchestra.Infrastructure.InMemory.Queue.{serve_store-IsDistinct}
use multi_cloud_ai_orchestra.Infrastructure.Postgres.{Session, IsTable}
use multi_cloud_ai_orchestra.Infrastructure.Postgres.Models.{TaskOrm, tasks, fits_string}
use multi_cloud_ai_orchestra.Infrastructure.Postgres.Tasks
use multi_cloud_ai_orchestra.Infrastructure.Postgres.Tasks.Queue.{serve_table-IsDistinct}

-- Of any number of workers that call acquire_next one after the other, no two get the same task:
-- neither from an in-memory store that holds every task under its id, nor from the task table, when
-- the names of the workers fit their column.
pub acquire_next-IsDistinct :
    {S : Type 0} (session : Session S TaskOrm) (table : IsTable tasks session)
    (workers : List String) (store : TaskStore) (database : S)
    → IsKeyed task_id store.tasks
    → All (λ worker_id. fits_string 100 worker_id ≡ true) workers
    → IsDistinct (serve InMemory.task_repository workers store)
      × IsDistinct (serve (Tasks.task_repository session) workers database)
acquire_next-IsDistinct session table workers store database keyed fits = (
  serve_store-IsDistinct workers store keyed,
  serve_table-IsDistinct session table workers database fits,
)
