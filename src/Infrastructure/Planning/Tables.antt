-- ===== src/Infrastructure/Planning/Tables.antt =====
-- The tables of RuleBasedPlanningEngine over the resource types: the creation order, the durations
-- and the costs (infrastructure/ai/planning_engine.py).
use multi_cloud_ai_orchestra.Base.{ℕ}
use multi_cloud_ai_orchestra.Domain.Cloud.{
  ResourceType, compute, storage, database, network, container, serverless, load_balancer, dns, cdn,
  queue, cache, ResourceSpec,
}

-- RESOURCE_PRIORITY, which has every resource type.
unfoldable pub resource_priority : ResourceType → ℕ
resource_priority network = 1
resource_priority dns = 2
resource_priority storage = 3
resource_priority database = 4
resource_priority cache = 5
resource_priority queue = 6
resource_priority compute = 7
resource_priority container = 8
resource_priority serverless = 9
resource_priority load_balancer = 10
resource_priority cdn = 11

-- _estimate_step_duration; DNS, CDN and QUEUE have the default of 60.
unfoldable pub estimate_step_duration : ResourceType → ℕ
estimate_step_duration network = 30
estimate_step_duration compute = 60
estimate_step_duration database = 120
estimate_step_duration container = 90
estimate_step_duration storage = 15
estimate_step_duration serverless = 30
estimate_step_duration load_balancer = 45
estimate_step_duration cache = 60
estimate_step_duration _ = 60

-- `cost_per_resource`, in whole dollars a month; it has every resource type.
unfoldable pub cost_per_resource : ResourceType → ℕ
cost_per_resource compute = 50
cost_per_resource storage = 10
cost_per_resource database = 75
cost_per_resource network = 5
cost_per_resource container = 100
cost_per_resource serverless = 20
cost_per_resource load_balancer = 25
cost_per_resource cache = 40
cost_per_resource queue = 15
cost_per_resource cdn = 30
cost_per_resource dns = 2

abbrev pub priority : ResourceSpec → ℕ
priority r = resource_priority r.resource_type
