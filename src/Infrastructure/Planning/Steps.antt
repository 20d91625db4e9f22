-- ===== src/Infrastructure/Planning/Steps.antt =====
-- Step creation in RuleBasedPlanningEngine: _create_steps_from_resources and
-- _create_default_steps (infrastructure/ai/planning_engine.py).
use multi_cloud_ai_orchestra.Base.{ℕ, String, List, [], ◌∷◌, Json, fstring}
use multi_cloud_ai_orchestra.Base.Sort.{sorted}
use multi_cloud_ai_orchestra.Domain.Cloud.{
  CloudProviderType, compute, network, provider_value, resource_value, ResourceSpec,
  resource_identifier,
}
use multi_cloud_ai_orchestra.Domain.Entity.{Ambient, fresh_id, after_id}
use multi_cloud_ai_orchestra.Domain.Plan.{DeploymentIntent, ExecutionStep}
use multi_cloud_ai_orchestra.Infrastructure.Planning.Tables.{estimate_step_duration, priority}

-- ExecutionStep(...) with the defaults of `step_id` and `idempotency_key` drawn in this order.
unfoldable pub new_step :
    String
    → String
    → CloudProviderType
    → ResourceSpec
    → ℕ
    → List String
    → Ambient
    → ExecutionStep × Ambient
new_step name description provider spec duration deps a = (
  record {
    step_id = fresh_id a;
    name = name;
    description = description;
    provider = provider;
    resource_spec = spec;
    terraform_action = "create";
    dependencies = deps;
    estimated_duration_seconds = duration;
    idempotency_key = fresh_id (after_id a);
    retry_count = 0;
    max_retries = 3;
  },
  after_id (after_id a),
)

-- The list comprehension of _create_steps_from_resources.
unfoldable pub steps_for : List ResourceSpec → Ambient → List ExecutionStep × Ambient
steps_for [] a = ([], a)
steps_for (r ∷ rs) a =
    let (step, b) =
      new_step (fstring ("deploy-" ∷ r.name ∷ []))
        (fstring (
          "Deploy "
          ∷ resource_value r.resource_type
          ∷ " resource '"
          ∷ r.name
          ∷ "' on "
          ∷ provider_value r.provider
          ∷ []))
        r.provider r (estimate_step_duration r.resource_type) [] a in
    let (steps, c) = steps_for rs b in (step ∷ steps, c)

unfoldable pub create_steps_from_resources :
    DeploymentIntent → Ambient → List ExecutionStep × Ambient
create_steps_from_resources intent = steps_for (sorted priority intent.resources)

-- `intent.target_regions[0] if intent.target_regions else "us-east-1"`
unfoldable pub first_region : List String → String
first_region [] = "us-east-1"
first_region (r ∷ rs) = r

unfoldable pub network_spec : DeploymentIntent → CloudProviderType → ResourceSpec
network_spec intent provider = record {
  resource_type = network;
  provider = provider;
  region = first_region intent.target_regions;
  name = fstring (intent.environment ∷ "-vpc" ∷ []);
  properties = ("cidr_block", Json.str "10.0.0.0/16") ∷ [];
  tags = ("environment", intent.environment) ∷ [];
  dependencies = [];
}

unfoldable pub compute_spec : DeploymentIntent → CloudProviderType → ResourceSpec
compute_spec intent provider = record {
  resource_type = compute;
  provider = provider;
  region = first_region intent.target_regions;
  name = fstring (intent.environment ∷ "-app" ∷ []);
  properties = ("instance_type", Json.str "t3.medium") ∷ [];
  tags = ("environment", intent.environment) ∷ [];
  dependencies = resource_identifier (network_spec intent provider) ∷ [];
}

-- The loop of _create_default_steps over the providers.
unfoldable pub default_steps_for :
    DeploymentIntent → List CloudProviderType → Ambient → List ExecutionStep × Ambient
default_steps_for intent [] a = ([], a)
default_steps_for intent (provider ∷ providers) a =
    let (network_step, b) =
      new_step (fstring ("create-network-" ∷ provider_value provider ∷ []))
        (fstring ("Create VPC/VNet on " ∷ provider_value provider ∷ [])) provider
        (network_spec intent provider) 30 [] a in
    let (compute_step, c) =
      new_step (fstring ("create-compute-" ∷ provider_value provider ∷ []))
        (fstring ("Create compute instance on " ∷ provider_value provider ∷ [])) provider
        (compute_spec intent provider) 60 (network_step.step_id ∷ []) b in
    let (steps, d) = default_steps_for intent providers c in
    (network_step ∷ compute_step ∷ steps, d)

unfoldable pub create_default_steps : DeploymentIntent → Ambient → List ExecutionStep × Ambient
create_default_steps intent = default_steps_for intent intent.target_providers
