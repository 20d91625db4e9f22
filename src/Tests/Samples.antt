-- ===== src/Tests/Samples.antt =====
-- Small inputs: a clock, a deployment with its plan, its tasks, and the stores that hold them.
use multi_cloud_ai_orchestra.Base.{ℕ, String, Bool, true, false, List, [], ◌∷◌, none, some, decimal}
use multi_cloud_ai_orchestra.Domain.Status.{DeploymentStatus, TaskStatus}
use multi_cloud_ai_orchestra.Domain.Cloud.{
  ResourceType, compute, network, database, aws, ResourceSpec,
}
use multi_cloud_ai_orchestra.Domain.Entity.{Ambient, Entity, Live}
use multi_cloud_ai_orchestra.Domain.Plan.{
  rolling, DeploymentIntent, ExecutionStep, ExecutionPlan, StepResult,
}
use multi_cloud_ai_orchestra.Domain.Deployment.{Deployment}
use multi_cloud_ai_orchestra.Domain.Task.{Task}
use multi_cloud_ai_orchestra.Domain.User.{Role, User}
use multi_cloud_ai_orchestra.Services.World.{World}

-- The clock ticks once for each reading.
abbrev pub outside : Ambient
outside = record { clock = λ n. n; ids = decimal }

abbrev pub entity : String → ℕ → Entity
entity id created_at = record {
  id = id;
  created_at = created_at;
  updated_at = created_at;
  version = 1;
}

abbrev pub spec : ResourceType → String → ResourceSpec
spec type name = record {
  resource_type = type;
  provider = aws;
  region = "us-east-1";
  name = name;
  properties = [];
  tags = [];
  dependencies = [];
}

abbrev pub intent : DeploymentIntent
intent = record {
  description = "a web application";
  target_providers = aws ∷ [];
  target_regions = "us-east-1" ∷ [];
  resources = spec database "db" ∷ spec compute "web" ∷ spec network "vpc" ∷ [];
  strategy = rolling;
  auto_approve = false;
  rollback_on_failure = true;
  environment = "staging";
  parameters = [];
}

abbrev pub step : String → List String → ExecutionStep
step id dependencies = record {
  step_id = id;
  name = id;
  description = id;
  provider = aws;
  resource_spec = spec compute id;
  terraform_action = "apply";
  dependencies = dependencies;
  estimated_duration_seconds = 60;
  idempotency_key = id;
  retry_count = 0;
  max_retries = 3;
}

abbrev pub plan : ExecutionPlan
plan = record {
  plan_id = "plan";
  steps = step "web" ("vpc" ∷ []) ∷ step "vpc" [] ∷ [];
  estimated_total_duration_seconds = 120;
  risk_assessment = "low";
  reasoning = "";
  terraform_plan_output = "";
}

abbrev pub deployment : DeploymentStatus → Deployment
deployment status = record {
  entity = entity "d" 0;
  domain_events = [];
  name = "deploy-staging-aws";
  intent = intent;
  status = status;
  plan = some plan;
  step_results = [];
  initiated_by = "user";
  tenant_id = "tenant";
  error_message = "";
  rollback_deployment_id = none;
}

abbrev pub live_deployment : DeploymentStatus → Live Deployment
live_deployment status = record { self = deployment status; ambient = outside }

abbrev pub step_failed : StepResult
step_failed = record {
  step_id = "web";
  success = false;
  output = "";
  error_message = "quota";
  resource_ids = [];
  duration_seconds = 0;
  idempotency_key = "web";
  attempt_number = 1;
}

abbrev pub task : String → ℕ → TaskStatus → Task
task id created_at status = record {
  entity = entity id created_at;
  deployment_id = "d";
  step_id = id;
  name = id;
  description = "";
  status = status;
  provider = aws;
  terraform_action = "apply";
  worker_id = none;
  idempotency_key = id;
  attempt_number = 1;
  max_attempts = 3;
  timeout_seconds = 60;
  input_data = [];
  output_data = [];
  error_message = "";
  started_at = none;
  completed_at = none;
}

abbrev pub live_task : TaskStatus → Live Task
live_task status = record { self = task "t" 0 status; ambient = outside }

abbrev pub user : Role → User
user role = record {
  entity = entity "u" 0;
  username = "u";
  email = "u@example.com";
  hashed_password = "";
  role = role;
  tenant_id = "tenant";
  is_active = true;
}

-- A world in which every `acquire` of a lock has the same answer.
abbrev pub world : Bool → DeploymentStatus → TaskStatus → TaskStatus → World
world answer status first second = record {
  deployments = ("d", deployment status) ∷ [];
  tasks = ("t", task "t" 1 first) ∷ ("u", task "u" 0 second) ∷ [];
  published = [];
  lock_calls = [];
  lock_answers = λ n. answer;
  ambient = outside;
}
