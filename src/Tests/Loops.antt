-- ===== src/Tests/Loops.antt =====
-- The loop of a worker at a concrete queue.
use multi_cloud_ai_orchestra.Base.{[], ◌∷◌}
use multi_cloud_ai_orchestra.Domain.Status.{queued, running}
use multi_cloud_ai_orchestra.Domain.Task.{Task}
use multi_cloud_ai_orchestra.Workers.Base.{Outcome, Worker}
use multi_cloud_ai_orchestra.Tests.Samples.{outside, task}

abbrev worker : Worker
worker = record {
  worker_id = "w";
  max_concurrent = 5;
  active_tasks = [];
  tasks = ("t", task "t" 1 queued) ∷ ("u", task "u" 0 queued) ∷ ("v", task "v" 2 running) ∷ [];
  published = [];
  ambient = outside;
}

abbrev execute : Task → Outcome
execute t = Outcome.exception "quota"
