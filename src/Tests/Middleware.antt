-- ===== src/Tests/Middleware.antt =====
-- The theorems on the rate limiter, the event publisher and the cache at concrete inputs.
use multi_cloud_ai_orchestra.Base.{
  ◌≡◌, ◌≢◌, ap, refl, ltb, ◌||◌, ℕ, suc, ◌+◌, ◌*◌, ◌≤◌, String, str_eq, eq_iff, Bool, true, false,
  [], ◌∷◌, ◌++◌, some, none, Option, Json, Method, ok, raised, arith, if◌then◌else◌, List,
}
use mathlib.Core.Bool.{false≢true}
use multi_cloud_ai_orchestra.Base.Dict.{Dict, get}
use multi_cloud_ai_orchestra.Api.RateLimiter.{RateLimitSettings, Limiter, dispatch, token}
use multi_cloud_ai_orchestra.Api.RateLimiter.Clients.{
  Request, admitted, after, funds, is_passed, dispatch_bound,
}
use multi_cloud_ai_orchestra.Infrastructure.EventPublisher.{
  Event, Publisher, handlers_of, publish_batch, subscribe,
}
use multi_cloud_ai_orchestra.Infrastructure.EventPublisher.Delivery.{
  IsDelivered, publish_batch-IsDelivered,
}
use multi_cloud_ai_orchestra.Infrastructure.RedisCache.{
  CacheClient, cached, set_cached, exists_cached,
}
use multi_cloud_ai_orchestra.Infrastructure.RedisCache.Kept.{
  IsCacheServer, is_text, cached-set_cached,
}

abbrev settings : RateLimitSettings
settings = record { requests_per_minute = 60; burst_size = 2 }

abbrev limiter : Limiter
limiter = record {
  buckets = ("10.0.0.1", record { credit = 60; debt = 0; last_refill = 0 }) ∷ [];
  clock = λ n. n;
}

abbrev requests : List Request
requests =
    ("/api/v1/deployments", some "10.0.0.1")
    ∷ ("/health", some "10.0.0.1")
    ∷ ("/api/v1/drift", none)
    ∷ ("/api/v1/drift", some "10.0.0.1")
    ∷ []

dispatch_bound_example :
    (admitted 1 settings "10.0.0.1" requests limiter * (60 * 1) + 0 * 60
      ≤ 2 * (60 * 1) + (after 1 settings requests limiter).clock 0 * 60)
    × ((ltb (funds 1 settings (get "10.0.0.1" limiter.buckets) 0) (token 1 settings)
          || is_passed (dispatch 1 settings "/api/v1/drift" (some "10.0.0.1") limiter).0)
        ≡ true)
unfolding get
dispatch_bound_example =
    dispatch_bound 1 settings "/api/v1/drift" (some "10.0.0.1") requests limiter (λ n. omega arith)
      (record { no_debt = refl; bounded = omega arith; past = omega arith })

-- A handler by its name: it counts, or raises.
abbrev handle : String → Dict Json → Method String ℕ (Unit {0})
handle name payload n = if str_eq name "bad" then (raised "bad", n) else (ok tt, suc n)

abbrev publisher : Publisher String ℕ
publisher = record {
  events = [];
  handlers = ("task.failed", "log" ∷ "bad" ∷ "mail" ∷ []) ∷ [];
  world = 0;
}

abbrev batch : List Event
batch = ("task.done", []) ∷ ("task.failed", []) ∷ ("task.done", []) ∷ []

publish_batch-IsDelivered_example :
    IsDelivered handle batch publisher (publish_batch handle batch publisher)
    × (handlers_of (get "task.done" (subscribe "task.done" "log" publisher).handlers) ≡ (
        if str_eq "task.done" "task.done"
        then handlers_of (get "task.done" publisher.handlers) ++ "log" ∷ []
        else handlers_of (get "task.done" publisher.handlers)))
publish_batch-IsDelivered_example =
    publish_batch-IsDelivered handle batch publisher "task.done" "task.done" "log"

-- A server in memory, on which nothing expires.
abbrev is_there : {V : Type 0} → Option V → Bool
is_there none = false
is_there (some v) = true

abbrev client : CacheClient (String → Option String)
client = record {
  get = λ key s. s key;
  setex = λ key ttl value s k. if str_eq key k then some value else s k;
  delete = λ key s k. if str_eq key k then none else s k;
  exists = λ key s. is_there (s key);
}

server : IsCacheServer client
server = record {
  set_key = λ key value ttl s. rw ((eq_iff key key).1 refl) refl;
  set_other = λ key other value ttl s differ. ground (arith, eq_iff key other, differ);
  deleted = λ key s. rw ((eq_iff key key).1 refl) refl;
  present = λ key value s e. rw e refl;
  absent = λ key s e. rw e refl;
}

abbrev dumps : Json → String
dumps json = "5"

abbrev loads : String → Option Json
loads text = if str_eq text "5" then some (Json.num 5) else none

abbrev empty : String → Option String
empty key = none

cached-set_cached_example :
    let set = λ (v : Json). set_cached client dumps loads "k" v 300 empty in
    (cached client dumps loads "k" (set (Json.num 5)) ≡ some (Json.num 5))
    × (cached client dumps loads "k" (set (Json.str "web")) ≡ some (Json.str "web"))
    × (cached client dumps loads "k" (set (Json.str "5")) ≡ some (Json.num 5))
    × (cached client dumps loads "k" (set (Json.str "5")) ≢ some (Json.str "5"))
    × ((v : Json)
        → (exists_cached client dumps loads "k" (set v) ≡ true)
          × (cached client dumps loads "j" (set v) ≡ cached client dumps loads "j" empty))
cached-set_cached_example =
    cached-set_cached client server dumps loads "k" "j" (Json.num 5) (Json.num 5) "web" "5" 300
      empty refl refl refl refl (λ e. false≢true (ap is_text e))
      (λ e. false≢true ((eq_iff "j" "k").1 e))
