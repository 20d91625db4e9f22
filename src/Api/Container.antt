-- ===== src/Api/Container.antt =====
-- ServiceContainer of api/dependencies/services.py. An object is known by its place among the
-- objects that the process has built. A property of the container is read of the one that
-- get_service_container gives.
pub mod Quiet
use multi_cloud_ai_orchestra.Base.{
  ℕ, List, [], ◌∷◌, ◌++◌, Bool, true, false, Option, none, some, length,
}

pub data Object : Type 0 where
  in_memory_deployment_repository : Object
  in_memory_task_repository : Object
  in_memory_event_publisher : Object
  rule_based_planning_engine : Object
  simulated_terraform_executor : Object
  simulated_drift_detector : Object
  redis_client : Object
  redis_distributed_lock : (client : ℕ) → Object
  redis_cache_service : (client : ℕ) → Object
  deployment_domain_service : (deployment_repo task_repo planning event_bus lock : ℕ) → Object

-- `_redis_client` is always None; `_settings` is left out.
pub record ServiceContainer : Type 0 where
  pub event_publisher : ℕ
  pub planning_engine : ℕ
  pub terraform_executor : ℕ
  pub drift_detector : ℕ
  pub cache_service : Option ℕ
  pub lock_service : Option ℕ

-- The objects, `ServiceContainer._instance`, and of deployment_routes.py `_state["service"]` and
-- whether `_init_lock` is held.
pub record Process : Type 0 where
  pub objects : List Object
  pub instance : Option ServiceContainer
  pub service : Option ℕ
  pub init_lock : Bool

unfoldable pub build : Object → Process → ℕ × Process
build o p = (length p.objects, record p { objects = p.objects ++ o ∷ [] })

unfoldable pub new_container : Process → ServiceContainer × Process
unfolding build
new_container p =
    let (events, p) = build in_memory_event_publisher p in
    let (planning, p) = build rule_based_planning_engine p in
    let (terraform, p) = build simulated_terraform_executor p in
    let (drift, p) = build simulated_drift_detector p in
    (
      record {
        event_publisher = events;
        planning_engine = planning;
        terraform_executor = terraform;
        drift_detector = drift;
        cache_service = none;
        lock_service = none;
      },
      p,
    )

unfoldable pub instance_or_new : Option ServiceContainer → Process → ServiceContainer × Process
unfolding new_container
instance_or_new (some c) p = (c, p)
instance_or_new none p = let (c, p) = new_container p in (c, record p { instance = some c })

unfoldable pub get_instance : Process → ServiceContainer × Process
unfolding instance_or_new
get_instance p = instance_or_new p.instance p

unfoldable pub reset : Process → Process
reset p = record p { instance = none }

unfoldable pub lock_of : ServiceContainer → Option ℕ → Process → ℕ × Process
unfolding build
lock_of c (some lock) p = (lock, p)
lock_of c none p =
    let (client, p) = build redis_client p in
    let (lock, p) = build (redis_distributed_lock client) p in
    (lock, record p { instance = some (record c { lock_service = some lock }) })

unfoldable pub lock_service : Process → ℕ × Process
unfolding get_instance lock_of
lock_service p = let (c, p) = get_instance p in lock_of c c.lock_service p

unfoldable pub cache_of : ServiceContainer → Option ℕ → Process → ℕ × Process
unfolding build
cache_of c (some cache) p = (cache, p)
cache_of c none p =
    let (client, p) = build redis_client p in
    let (cache, p) = build (redis_cache_service client) p in
    (cache, record p { instance = some (record c { cache_service = some cache }) })

unfoldable pub cache_service : Process → ℕ × Process
unfolding get_instance cache_of
cache_service p = let (c, p) = get_instance p in cache_of c c.cache_service p
