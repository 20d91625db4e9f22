-- ===== src/Infrastructure/RedisCache.antt =====
-- RedisCacheService of infrastructure/cache/redis_cache.py. The client of the server and the functions
-- of json are parameters; the bytes that the server answers stand for the text in UTF-8 that they
-- are, which json.loads reads and `decode` gives.
pub mod Kept
use multi_cloud_ai_orchestra.Base.{ℕ, String, Bool, Option, none, some, Json}

-- The calls of the client.
pub record CacheClient (S : Type 0) : Type 0 where
  pub get : (key : String) → S → Option String
  pub setex : (key : String) → (ttl_seconds : ℕ) → (value : String) → S → S
  pub delete : (key : String) → S → S
  pub exists : (key : String) → S → Bool

module _ {S : Type 0} (client : CacheClient S) (dumps : Json → String)
    (loads : String → Option Json) where
  -- `json.loads(value)`, or the text itself where it is no JSON
  unfoldable pub loaded : String → Option Json → Json
  loaded value (some json) = json
  loaded value none = Json.str value

  -- The end of get, on what the server answers.
  unfoldable pub parsed : Option String → Option Json
  unfolding loaded
  parsed none = none
  parsed (some value) = some (loaded value (loads value))

  -- RedisCacheService.get
  unfoldable pub cached : String → S → Option Json
  unfolding parsed
  cached key s = parsed (client.get key s)

  -- `json.dumps(value) if not isinstance(value, str) else value`
  unfoldable pub serialized : Json → String
  serialized (Json.str value) = value
  serialized Json.null = dumps Json.null
  serialized (Json.flag b) = dumps (Json.flag b)
  serialized (Json.num n) = dumps (Json.num n)
  serialized (Json.arr items) = dumps (Json.arr items)
  serialized (Json.obj entries) = dumps (Json.obj entries)

  -- RedisCacheService.set
  unfoldable pub set_cached : String → Json → ℕ → S → S
  unfolding serialized
  set_cached key value ttl_seconds s = client.setex key ttl_seconds (serialized value) s

  -- RedisCacheService.delete
  unfoldable pub delete_cached : String → S → S
  delete_cached key s = client.delete key s

  -- RedisCacheService.exists
  unfoldable pub exists_cached : String → S → Bool
  exists_cached key s = client.exists key s
