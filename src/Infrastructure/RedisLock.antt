-- ===== src/Infrastructure/RedisLock.antt =====
-- RedisDistributedLock of infrastructure/cache/redis_cache.py. The Redis server is a parameter: its
-- state, and the commands that the class and its Lua scripts use. A script runs as one command.
-- Logging is left out.
pub mod Exclusion
use multi_cloud_ai_orchestra.Base.{
  ℕ, String, str_eq, Bool, true, false, List, [], ◌∷◌, Option, none, some, fstring, if◌then◌else◌,
}
use multi_cloud_ai_orchestra.Base.Dict.{Dict, get, put, remove}
use multi_cloud_ai_orchestra.Domain.Entity.{Ambient, fresh_id, after_id}

-- The commands of a server with state `S`: `set key value nx=True ex=ttl` tells whether it was set.
pub record Redis (S : Type 0) : Type 0 where
  pub set_nx : String → String → ℕ → S → Bool × S
  pub get_key : String → S → Option String
  pub del : String → S → S
  pub expire : String → ℕ → S → S

-- `lock:{resource_id}`
unfoldable pub lock_key : String → String
lock_key resource_id = fstring ("lock:" ∷ resource_id ∷ [])

module _ {S : Type 0} (redis : Redis S) where
  -- A lock object, with the server and the outside world.
  pub record Locking : Type 0 where
    pub lock_values : Dict String
    pub server : S
    pub ambient : Ambient

  unfoldable pub acquire : String → ℕ → Locking → Bool × Locking
  acquire resource_id ttl_seconds l =
      let value = fresh_id l.ambient in
      let (acquired, server) = redis.set_nx (lock_key resource_id) value ttl_seconds l.server in
      (
        acquired,
        record {
          lock_values = if acquired then put resource_id value l.lock_values else l.lock_values;
          server = server;
          ambient = after_id l.ambient;
        },
      )

  -- `redis.call("get", KEYS[1]) == ARGV[1]`
  abbrev pub holds_value : Option String → String → Bool
  holds_value none value = false
  holds_value (some v) value = str_eq v value

  -- The script of release, and what follows it.
  unfoldable pub release_value : String → Option String → Locking → Bool × Locking
  release_value resource_id none l = (false, l)
  release_value resource_id (some value) l =
      let mine = holds_value (redis.get_key (lock_key resource_id) l.server) value in
      (
        mine,
        record l {
          lock_values = if mine then remove resource_id l.lock_values else l.lock_values;
          server = if mine then redis.del (lock_key resource_id) l.server else l.server;
        },
      )

  unfoldable pub release : String → Locking → Bool × Locking
  release resource_id l = release_value resource_id (get resource_id l.lock_values) l

  unfoldable pub extend_value : String → ℕ → Option String → Locking → Bool × Locking
  extend_value resource_id ttl_seconds none l = (false, l)
  extend_value resource_id ttl_seconds (some value) l =
      let mine = holds_value (redis.get_key (lock_key resource_id) l.server) value in
      (
        mine,
        record l {
          server =
              if mine then redis.expire (lock_key resource_id) ttl_seconds l.server else l.server;
        },
      )

  unfoldable pub extend : String → ℕ → Locking → Bool × Locking
  extend resource_id ttl_seconds l =
      extend_value resource_id ttl_seconds (get resource_id l.lock_values) l

  abbrev pub is_set : Option String → Bool
  is_set none = false
  is_set (some v) = true

  unfoldable pub is_locked : String → Locking → Bool
  is_locked resource_id l = is_set (redis.get_key (lock_key resource_id) l.server)
