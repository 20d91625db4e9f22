-- ===== src/Infrastructure/TerraformExecutor.antt =====
-- SimulatedTerraformExecutor of infrastructure/terraform/executor.py. `json.dumps` and the functions
-- of os.path are parameters. The file system is the texts written and the directories made; that the
-- operating system may refuse is left out, and so are logging and the simulated delays.
pub mod Injection
use Prim.Native.String
use multi_cloud_ai_orchestra.Base.{
  String, Bool, true, false, List, [], ◌∷◌, ◌++◌, Option, none, some, Json, Fields, field,
  no_fields, fstring, texts,
}
use multi_cloud_ai_orchestra.Base.Dict.{Dict, put, remove}
use multi_cloud_ai_orchestra.Domain.Cloud.{
  CloudProviderType, aws, azure, gcp, provider_value, ResourceType, compute, storage, database,
  network, container, serverless, load_balancer, cache, resource_value, ResourceSpec,
}

pub record ProviderConfig : Type 0 where
  pub source : String
  pub version : String

-- PROVIDER_CONFIGS
unfoldable pub provider_configs : CloudProviderType → Option ProviderConfig
provider_configs aws = some (record { source = "hashicorp/aws"; version = "~> 5.0" })
provider_configs azure = some (record { source = "hashicorp/azurerm"; version = "~> 3.0" })
provider_configs gcp = some (record { source = "hashicorp/google"; version = "~> 5.0" })

-- RESOURCE_TERRAFORM_MAP
unfoldable pub resource_terraform_map : CloudProviderType → ResourceType → Option String
resource_terraform_map aws compute = some "aws_instance"
resource_terraform_map aws storage = some "aws_s3_bucket"
resource_terraform_map aws database = some "aws_db_instance"
resource_terraform_map aws network = some "aws_vpc"
resource_terraform_map aws container = some "aws_ecs_cluster"
resource_terraform_map aws serverless = some "aws_lambda_function"
resource_terraform_map aws load_balancer = some "aws_lb"
resource_terraform_map aws cache = some "aws_elasticache_cluster"
resource_terraform_map azure compute = some "azurerm_virtual_machine"
resource_terraform_map azure storage = some "azurerm_storage_account"
resource_terraform_map azure database = some "azurerm_postgresql_server"
resource_terraform_map azure network = some "azurerm_virtual_network"
resource_terraform_map azure container = some "azurerm_kubernetes_cluster"
resource_terraform_map gcp compute = some "google_compute_instance"
resource_terraform_map gcp storage = some "google_storage_bucket"
resource_terraform_map gcp database = some "google_sql_database_instance"
resource_terraform_map gcp network = some "google_compute_network"
resource_terraform_map gcp container = some "google_container_cluster"
resource_terraform_map provider type = none

-- `RESOURCE_TERRAFORM_MAP.get(..., f"{provider}_{type}")`
unfoldable pub terraform_resource : CloudProviderType → ResourceType → Option String → String
unfolding fstring provider_value resource_value
terraform_resource provider type (some name) = name
terraform_resource provider type none =
    fstring (provider_value provider ∷ "_" ∷ resource_value type ∷ [])

-- `provider_config.get('source', ...)` and `provider_config.get('version', ...)`
unfoldable pub source_of : CloudProviderType → Option ProviderConfig → String
unfolding fstring provider_value
source_of provider (some config) = config.source
source_of provider none = fstring ("hashicorp/" ∷ provider_value provider ∷ [])

unfoldable pub version_of : Option ProviderConfig → String
version_of (some config) = config.version
version_of none = "~> 1.0"

-- The object: `_state`, and the file system that it writes to.
pub record Executor : Type 0 where
  pub simulated : Dict Json
  pub files : Dict String
  pub directories : List String

-- What a call prints or returns, and the object after it.
abbrev pub Reply : Type 0
Reply = (Bool × String) × Executor

-- os.makedirs(working_dir, exist_ok=True)
unfoldable pub make_directory : String → Executor → Executor
make_directory working_dir s = record s { directories = working_dir ∷ s.directories }

unfoldable pub init_with : Option ProviderConfig → String → CloudProviderType → Executor → Reply
unfolding fstring provider_value make_directory
init_with none working_dir provider s =
    ((false, fstring ("Unsupported provider: " ∷ provider_value provider ∷ [])), s)
init_with (some config) working_dir provider s = (
  (true, fstring ("Terraform initialized for " ∷ provider_value provider ∷ [])),
  make_directory working_dir s,
)

unfoldable pub init : String → CloudProviderType → Executor → Reply
unfolding init_with provider_configs
init working_dir provider s = init_with (provider_configs provider) working_dir provider s

unfoldable pub plan : String → Executor → Reply
plan working_dir s = ((true, "Plan: 1 to add, 0 to change, 0 to destroy."), s)

-- `for key, value in spec.properties.items()`
module _ (dumps : Json → String) where
  unfoldable pub property_line : String → Json → String
  unfolding fstring
  property_line key (Json.str value) = fstring ("  " ∷ key ∷ " = \"" ∷ value ∷ "\"\n" ∷ [])
  property_line key value = fstring ("  " ∷ key ∷ " = " ∷ dumps value ∷ "\n" ∷ [])

  unfoldable pub property_lines : Dict Json → String
  unfolding property_line
  property_lines [] = ""
  property_lines ((key, value) ∷ properties) =
      String.◌++◌ (property_line key value) (property_lines properties)

-- `for tag_key, tag_value in spec.tags.items()`
unfoldable pub tag_lines : Dict String → String
unfolding fstring
tag_lines [] = ""
tag_lines ((key, value) ∷ tags) =
    String.◌++◌ (fstring ("    " ∷ key ∷ " = \"" ∷ value ∷ "\"\n" ∷ [])) (tag_lines tags)

-- `if spec.tags:`
unfoldable pub tags_block : Dict String → String
unfolding fstring tag_lines
tags_block [] = ""
tags_block (tag ∷ tags) = fstring ("\n  tags = {\n" ∷ tag_lines (tag ∷ tags) ∷ "  }\n" ∷ [])

-- The text up to the properties.
unfoldable pub header : ResourceSpec → String
unfolding fstring provider_value provider_configs source_of version_of terraform_resource
    resource_terraform_map
header spec =
    let config = provider_configs spec.provider in
    fstring (
      "terraform {\n  required_providers {\n    "
      ∷ provider_value spec.provider
      ∷ " = {\n      source  = \""
      ∷ source_of spec.provider config
      ∷ "\"\n      version = \""
      ∷ version_of config
      ∷ "\"\n    }\n  }\n}\n\nresource \""
      ∷ terraform_resource spec.provider spec.resource_type
          (resource_terraform_map spec.provider spec.resource_type)
      ∷ "\" \""
      ∷ spec.name
      ∷ "\" {\n  # Region: "
      ∷ spec.region
      ∷ "\n"
      ∷ [])

-- The text `hcl` of generate_config.
unfoldable pub hcl_of : (Json → String) → ResourceSpec → String
unfolding header fstring property_lines tags_block
hcl_of dumps spec =
    fstring (header spec ∷ property_lines dumps spec.properties ∷ tags_block spec.tags ∷ "}\n" ∷ [])

module _ (dumps : Json → String) (basename : String → String)
    (join_path : String → String → String) where
  -- `f"sim-{os.path.basename(working_dir)}"`
  unfoldable pub resource_id : String → String
  unfolding fstring
  resource_id working_dir = fstring ("sim-" ∷ basename working_dir ∷ [])

  unfoldable pub created : String → Json
  created working_dir =
      Json.obj
        (field "status" (Json.str "created") (field "working_dir" (Json.str working_dir) no_fields))

  unfoldable pub apply : String → Executor → Reply
  unfolding resource_id created
  apply working_dir s = (
    (true, "Apply complete! Resources: 1 added, 0 changed, 0 destroyed."),
    record s { simulated = put (resource_id working_dir) (created working_dir) s.simulated },
  )

  unfoldable pub destroy : String → Executor → Reply
  unfolding resource_id
  destroy working_dir s = (
    (true, "Destroy complete! Resources: 1 destroyed."),
    record s { simulated = remove (resource_id working_dir) s.simulated },
  )

  unfoldable pub show_state : Executor → Dict Json
  show_state s = s.simulated

  unfoldable pub generate_config : ResourceSpec → String → Executor → String × Executor
  unfolding hcl_of make_directory
  generate_config spec working_dir s =
      let hcl = hcl_of dumps spec in
      let made = make_directory working_dir s in
      (hcl, record made { files = put (join_path working_dir "main.tf") hcl made.files })
