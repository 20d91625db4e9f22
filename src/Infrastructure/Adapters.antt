-- ===== src/Infrastructure/Adapters.antt =====
-- The adapters of infrastructure/ as the ports of domain/ports/services.py that their classes fill.
use multi_cloud_ai_orchestra.Base.{String, Option, Method, ok, Json, pure, gets, modify}
use multi_cloud_ai_orchestra.Base.Dict.{Dict}
use multi_cloud_ai_orchestra.Domain.Entity.{Ambient}
use multi_cloud_ai_orchestra.Domain.Ports.Services.{
  PlanningEngine, DriftDetector, TerraformExecutor, EventPublisher, DistributedLock, CacheService,
}
use multi_cloud_ai_orchestra.Infrastructure.Planning.Generate
use multi_cloud_ai_orchestra.Infrastructure.Planning.Checks
use multi_cloud_ai_orchestra.Infrastructure.DriftDetector.{
  Detector, detect_drift, get_current_state,
}
use multi_cloud_ai_orchestra.Infrastructure.TerraformExecutor as Terraform
use multi_cloud_ai_orchestra.Infrastructure.TerraformExecutor.{Executor}
use multi_cloud_ai_orchestra.Infrastructure.EventPublisher.{
  Publisher, Producer, publish, publish_batch, kafka_publish, kafka_publish_batch,
}
use multi_cloud_ai_orchestra.Infrastructure.RedisLock
use multi_cloud_ai_orchestra.Infrastructure.RedisLock.{Redis, Locking}
use multi_cloud_ai_orchestra.Infrastructure.RedisCache.{
  CacheClient, cached, set_cached, delete_cached, exists_cached,
}

-- A call that does not raise.
abbrev returns : {E S A : Type 0} → (S → A × S) → Method E S A
returns f s = let (a, t) = f s in (ok a, t)

module _ {E : Type 0} where
  -- RuleBasedPlanningEngine
  abbrev pub rule_based_planning_engine : PlanningEngine E Ambient
  rule_based_planning_engine = record {
    generate_plan = λ intent. returns (Generate.generate_plan intent);
    validate_plan = λ plan. pure (Checks.validate_plan plan);
    estimate_cost = λ plan. pure (Checks.estimate_cost plan);
  }

  -- SimulatedDriftDetector
  abbrev pub simulated_drift_detector : DriftDetector E Detector
  simulated_drift_detector = record {
    detect_drift = λ id expected. returns (detect_drift id expected);
    get_current_state = λ provider ids. gets (λ d. get_current_state d provider ids);
  }

  -- SimulatedTerraformExecutor
  abbrev pub simulated_terraform_executor :
      (Json → String)
      → (String → String)
      → (String → String → String)
      → TerraformExecutor E Executor
  simulated_terraform_executor dumps basename join = record {
    init = λ dir provider. returns (Terraform.init dir provider);
    plan = λ dir. returns (Terraform.plan dir);
    apply = λ dir. returns (Terraform.apply dumps basename join dir);
    destroy = λ dir. returns (Terraform.destroy dumps basename join dir);
    show_state = λ dir. gets (Terraform.show_state dumps basename join);
    generate_config = λ spec dir. returns (Terraform.generate_config dumps basename join spec dir);
  }

  -- RedisDistributedLock
  abbrev pub redis_lock : {S : Type 0} (redis : Redis S) → DistributedLock E (Locking redis)
  redis_lock redis = record {
    acquire = λ id ttl. returns (RedisLock.acquire redis id ttl);
    release = λ id. returns (RedisLock.release redis id);
    extend = λ id ttl. returns (RedisLock.extend redis id ttl);
    is_locked = λ id. gets (RedisLock.is_locked redis id);
  }

  -- RedisCacheService
  abbrev pub redis_cache :
      {S : Type 0} → CacheClient S → (Json → String) → (String → Option Json) → CacheService E S
  redis_cache client dumps loads = record {
    get = λ key. gets (cached client dumps loads key);
    set = λ key value ttl. modify (set_cached client dumps loads key value ttl);
    delete = λ key. modify (delete_cached client dumps loads key);
    exists = λ key. gets (exists_cached client dumps loads key);
  }

  -- InMemoryEventPublisher
  abbrev pub in_memory_publisher :
      {H W : Type 0} → (H → Dict Json → Method E W (Unit {0})) → EventPublisher E (Publisher H W)
  in_memory_publisher handle = record {
    publish = publish handle;
    publish_batch = publish_batch handle;
  }

  -- KafkaEventPublisher
  abbrev pub kafka_publisher :
      {K : Type 0} → Producer E K → (Dict Json → String) → String → EventPublisher E K
  kafka_publisher producer dumps topic_prefix = record {
    publish = kafka_publish producer dumps topic_prefix;
    publish_batch = kafka_publish_batch producer dumps topic_prefix;
  }
