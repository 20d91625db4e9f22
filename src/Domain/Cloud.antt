-- ===== src/Domain/Cloud.antt =====
-- Cloud providers, resource types and resource specifications (domain/models/cloud_provider.py).
use multi_cloud_ai_orchestra.Base.{
  String, List, [], ◌∷◌, Json, Json-discrete, String-discrete, fstring,
}
use multi_cloud_ai_orchestra.Base.Dict.{Dict}

pub data CloudProviderType : Type 0 where
  aws azure gcp : CloudProviderType

pub data ResourceType : Type 0 where
  compute storage database network container serverless load_balancer dns cdn queue cache :
      ResourceType

-- `CloudProviderType.value`
unfoldable pub provider_value : CloudProviderType → String
provider_value aws = "aws"
provider_value azure = "azure"
provider_value gcp = "gcp"

-- `ResourceType.value`
unfoldable pub resource_value : ResourceType → String
resource_value compute = "compute"
resource_value storage = "storage"
resource_value database = "database"
resource_value network = "network"
resource_value container = "container"
resource_value serverless = "serverless"
resource_value load_balancer = "load_balancer"
resource_value dns = "dns"
resource_value cdn = "cdn"
resource_value queue = "queue"
resource_value cache = "cache"

pub record ResourceSpec : Type 0 where
  pub resource_type : ResourceType
  pub provider : CloudProviderType
  pub region : String
  pub name : String
  pub properties : Dict Json
  pub tags : Dict String
  pub dependencies : List String

pub ResourceSpec-discrete : Discrete ResourceSpec
ResourceSpec-discrete = hlevel (Json-discrete, String-discrete)

unfoldable pub resource_identifier : ResourceSpec → String
unfolding provider_value resource_value fstring
resource_identifier s = fstring (
    provider_value s.provider
    ∷ "/"
    ∷ s.region
    ∷ "/"
    ∷ resource_value s.resource_type
    ∷ "/"
    ∷ s.name
    ∷ [])
