-- ===== src/Tests/Stores.antt =====
-- The theorems on the in-memory repositories and the drift detector at concrete inputs.
use mathlib.Core.Bool.{false≢true}
use mathlib.Core.List.{Perm}
use multi_cloud_ai_orchestra.Base.{
  decimal, Option, str_eq, if◌then◌else◌, eq_iff, Bool, ℕ, ◌+◌, ◌≤◌, ◌≡◌, ◌⊎◌, refl, ap, String,
  true, false, [], ◌∷◌, ◌++◌, some, none, ok, any, length, Json,
}
use multi_cloud_ai_orchestra.Base.Dict.{Dict, get, values}
use multi_cloud_ai_orchestra.Base.Sort.{IsSorted, descending}
use multi_cloud_ai_orchestra.Domain.Status.{queued, running, executing, completed}
use multi_cloud_ai_orchestra.Domain.Deployment.{Deployment}
use multi_cloud_ai_orchestra.Domain.Task.{Task}
use multi_cloud_ai_orchestra.Domain.Drift.{critical_count}
use multi_cloud_ai_orchestra.Infrastructure.InMemory.{
  TaskStore, is_queued, acquire_next, save_task, deployments_by_status, count_by_status,
  deployment_created_at,
}
use multi_cloud_ai_orchestra.Infrastructure.InMemory.Acquire.{IsServed, acquire_next-cases}
use multi_cloud_ai_orchestra.Infrastructure.InMemory.Listing.{deployments_by_status-pages, found}
use multi_cloud_ai_orchestra.Infrastructure.DriftDetector.{Detector, detect_drift, keys}
use multi_cloud_ai_orchestra.Infrastructure.DriftDetector.Counts.{detect_drift-counts}
use multi_cloud_ai_orchestra.Infrastructure.RedisLock.{
  Redis, Locking, acquire, release, extend, is_locked,
}
use multi_cloud_ai_orchestra.Infrastructure.RedisLock.Exclusion.{IsRedis, acquire-excludes}
use multi_cloud_ai_orchestra.Tests.Samples.{outside, deployment, task}

abbrev queue : TaskStore
queue = record {
  tasks = ("t", task "t" 1 queued) ∷ ("u", task "u" 0 queued) ∷ ("v", task "v" 2 running) ∷ [];
  ambient = outside;
}

acquire_next-cases_example :
    ((any is_queued (values queue.tasks) ≡ false) × (acquire_next "w" queue ≡ (ok none, queue)))
    ⊎ ((u : Task) × ((acquire_next "w" queue).0 ≡ ok (some u))
        × ((acquire_next "w" queue).1.tasks ≡ save_task u queue.tasks)
        × IsServed "w" queue.tasks u)
acquire_next-cases_example = acquire_next-cases "w" queue

abbrev store : Dict Deployment
store = ("d", deployment executing) ∷ ("e", deployment completed) ∷ []

deployments_by_status-pages_example :
    Perm
      (deployments_by_status executing (count_by_status executing store) 0 store)
      (found executing store)
    × IsSorted
        (descending deployment_created_at)
        (deployments_by_status executing (count_by_status executing store) 0 store)
    × ((n m k : ℕ)
        → deployments_by_status executing n k store
            ++ deployments_by_status executing m (k + n) store
          ≡ deployments_by_status executing (n + m) k store)
deployments_by_status-pages_example = deployments_by_status-pages executing store

abbrev detector : Detector
detector = record {
  simulated_states = ("aws/us-east-1/compute/web", []) ∷ [];
  draws = λ n. true;
  ambient = outside;
}

detect_drift-counts_example :
    let report = (detect_drift "d" (("aws/us-east-1/compute/web", Json.null) ∷ []) detector).0 in
    (critical_count report ≡ 1) × (length report.items ≤ 1)
unfolding get keys
detect_drift-counts_example =
    detect_drift-counts "d" (("aws/us-east-1/compute/web", Json.null) ∷ []) detector

-- A server on which no key expires: the value of each key.
abbrev Server : Type 0
Server = String → Option String

abbrev set_at : String → Option String → Server → Server
set_at key value s other = if str_eq key other then value else s other

abbrev set_free : Option String → String → String → Server → Bool × Server
set_free none key value s = (true, set_at key (some value) s)
set_free (some held) key value s = (false, s)

abbrev server : Redis Server
server = record {
  set_nx = λ key value ttl s. set_free (s key) key value s;
  get_key = λ key s. s key;
  del = λ key s. set_at key none s;
  expire = λ key ttl s. s;
}

server-IsRedis : IsRedis server
server-IsRedis = record {
  free = λ key value ttl s h. rw h (refl, rw ((eq_iff key key).1 refl) refl);
  taken = λ key value other ttl s h. rw h refl;
  deleted = λ key s. rw ((eq_iff key key).1 refl) refl;
}

abbrev first : Locking server
first = record { lock_values = []; server = λ key. none; ambient = outside }

-- It keeps the value of a lock that has expired.
abbrev second : Locking server
second = record { lock_values = ("d", "old") ∷ []; server = λ key. none; ambient = outside }

acquire-excludes_example :
    let (got, l) = acquire server "d" 30 first in
    let later : Locking server = record second { server = l.server } in
    let (other, m) = acquire server "d" 30 later in
    let (gone, f) = release server "d" l in
    (got ≡ true)
    × (other ≡ false)
    × (m.server ≡ l.server)
    × (release server "d" m ≡ (false, m))
    × (extend server "d" 30 m ≡ (false, m))
    × (gone ≡ true)
    × (is_locked server "d" f ≡ false)
unfolding get decimal
acquire-excludes_example =
    acquire-excludes server server-IsRedis "d" 30 first second refl
      (λ e. false≢true ((eq_iff "old" "0").1 (ap (λ o. elim o [ none ↦ "old" | some v ↦ v ]) e)))
