-- ===== src/Config.antt =====
-- The settings of config.py with their defaults, and the addresses made from them. That
-- pydantic-settings reads the environment is left out; an interval is in milliseconds.
use multi_cloud_ai_orchestra.Base.{
  ℕ, String, Bool, true, false, [], ◌∷◌, fstring, decimal, str_eq, if◌then◌else◌,
}
use multi_cloud_ai_orchestra.Api.Auth.{AuthSettings}
use multi_cloud_ai_orchestra.Api.RateLimiter.{RateLimitSettings}

pub data Environment : Type 0 where
  development staging production testing : Environment

pub record DatabaseSettings : Type 0 where
  pub host : String
  pub port : ℕ
  pub name : String
  pub user : String
  pub password : String
  pub pool_size : ℕ
  pub max_overflow : ℕ
  pub pool_timeout : ℕ

abbrev pub default_database : DatabaseSettings
default_database = record {
  host = "localhost";
  port = 5432;
  name = "orchestrator";
  user = "orchestrator";
  password = "";
  pool_size = 20;
  max_overflow = 10;
  pool_timeout = 30;
}

-- DatabaseSettings.async_url
unfoldable pub async_url : DatabaseSettings → String
unfolding fstring decimal
async_url s = fstring (
    "postgresql+asyncpg://"
    ∷ s.user
    ∷ ":"
    ∷ s.password
    ∷ "@"
    ∷ s.host
    ∷ ":"
    ∷ decimal s.port
    ∷ "/"
    ∷ s.name
    ∷ [])

-- DatabaseSettings.sync_url
unfoldable pub sync_url : DatabaseSettings → String
unfolding fstring decimal
sync_url s = fstring (
    "postgresql://"
    ∷ s.user
    ∷ ":"
    ∷ s.password
    ∷ "@"
    ∷ s.host
    ∷ ":"
    ∷ decimal s.port
    ∷ "/"
    ∷ s.name
    ∷ [])

pub record RedisSettings : Type 0 where
  pub host : String
  pub port : ℕ
  pub password : String
  pub db : ℕ
  pub lock_timeout : ℕ
  pub lock_retry_interval : ℕ

abbrev pub default_redis : RedisSettings
default_redis = record {
  host = "localhost";
  port = 6379;
  password = "";
  db = 0;
  lock_timeout = 30;
  lock_retry_interval = 100;
}

-- RedisSettings.url
unfoldable pub redis_url : RedisSettings → String
unfolding fstring decimal
redis_url s =
    let auth = if str_eq s.password "" then "" else fstring (":" ∷ s.password ∷ "@" ∷ []) in
    fstring ("redis://" ∷ auth ∷ s.host ∷ ":" ∷ decimal s.port ∷ "/" ∷ decimal s.db ∷ [])

pub record KafkaSettings : Type 0 where
  pub bootstrap_servers : String
  pub topic_prefix : String
  pub consumer_group : String
  pub enabled : Bool

abbrev pub default_kafka : KafkaSettings
default_kafka = record {
  bootstrap_servers = "localhost:9092";
  topic_prefix = "orchestrator";
  consumer_group = "orchestrator-group";
  enabled = false;
}

abbrev pub default_auth : AuthSettings
default_auth = record {
  secret_key = "change-me-in-production";
  algorithm = "HS256";
  access_token_expire_minutes = 30;
  refresh_token_expire_days = 7;
}

pub record ObservabilitySettings : Type 0 where
  pub otlp_endpoint : String
  pub service_name : String
  pub log_level : String
  pub metrics_enabled : Bool
  pub tracing_enabled : Bool

abbrev pub default_observability : ObservabilitySettings
default_observability = record {
  otlp_endpoint = "http://localhost:4317";
  service_name = "deployment-orchestrator";
  log_level = "INFO";
  metrics_enabled = true;
  tracing_enabled = true;
}

abbrev pub default_rate_limit : RateLimitSettings
default_rate_limit = record { requests_per_minute = 60; burst_size = 10 }

pub record Settings : Type 0 where
  pub environment : Environment
  pub debug : Bool
  pub api_prefix : String
  pub host : String
  pub port : ℕ
  pub workers : ℕ
  pub graceful_shutdown_timeout : ℕ
  pub database : DatabaseSettings
  pub redis : RedisSettings
  pub kafka : KafkaSettings
  pub auth : AuthSettings
  pub observability : ObservabilitySettings
  pub rate_limit : RateLimitSettings

-- `Settings()` in an empty environment
unfoldable pub default_settings : Settings
default_settings = record {
  environment = development;
  debug = false;
  api_prefix = "/api/v1";
  host = "0.0.0.0";
  port = 8000;
  workers = 4;
  graceful_shutdown_timeout = 30;
  database = default_database;
  redis = default_redis;
  kafka = default_kafka;
  auth = default_auth;
  observability = default_observability;
  rate_limit = default_rate_limit;
}
