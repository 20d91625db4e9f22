-- ===== src/Api/RateLimiter.antt =====
-- RateLimiterMiddleware of api/middleware/rate_limiter.py, with exact numbers for its floats. The
-- clock counts ticks, `hz` of them in a second, and an amount of tokens is a number of shares, `60 *
-- hz` of them in a token, so that a tick brings `requests_per_minute` shares. The amount is kept as
-- what was credited less what is owed, since it is below zero where the clock has gone back.
pub mod Bound
pub mod Clients
use Prim.Native.String
use text.Mathlib.Text.{starts_with}
use multi_cloud_ai_orchestra.Base.{
  ℕ, zero, suc, ◌+◌, ◌-◌, ◌*◌, ◌/◌, String, Bool, true, false, Option, none, some, List, [], ◌∷◌,
  ltb, leb, decimal, if◌then◌else◌,
}
use multi_cloud_ai_orchestra.Base.Dict.{Dict, get, put}

-- RateLimitSettings of config.py
pub record RateLimitSettings : Type 0 where
  pub requests_per_minute : ℕ
  pub burst_size : ℕ

pub record Bucket : Type 0 where
  pub credit : ℕ
  pub debt : ℕ
  pub last_refill : ℕ

-- What dispatch answers: the answer of the next handler, status 429 with the Retry-After header, or
-- the ZeroDivisionError of that header.
pub data Answer : Type 0 where
  passed : Answer
  too_many : (retry_after : String) → Answer
  zero_division : Answer

-- The middleware, with the readings of the clock to come.
pub record Limiter : Type 0 where
  pub buckets : Dict Bucket
  pub clock : ℕ → ℕ

module _ (hz : ℕ) (settings : RateLimitSettings) where
  -- One token, and the most that a bucket holds.
  abbrev pub token : ℕ
  token = 60 * hz

  abbrev pub burst : ℕ
  burst = settings.burst_size * (60 * hz)

  unfoldable pub new_bucket : ℕ → Bucket
  new_bucket now = record { credit = burst; debt = 0; last_refill = now }

  -- `min(float(burst_size), tokens + elapsed * refill_rate)`
  unfoldable pub refill : ℕ → Bucket → Bucket
  refill now b =
      let credit = b.credit + now * settings.requests_per_minute in
      let debt = b.debt + b.last_refill * settings.requests_per_minute in
      if leb credit (debt + burst)
      then record { credit = credit - debt; debt = debt - credit; last_refill = now }
      else record { credit = burst; debt = 0; last_refill = now }

  -- `bucket["tokens"] < 1.0`
  abbrev pub is_empty : Bucket → Bool
  is_empty b = ltb b.credit (b.debt + token)

  -- `bucket["tokens"] -= 1.0`
  unfoldable pub take_token : Bucket → Bucket
  take_token b = record b { credit = b.credit - token; debt = b.debt + (token - b.credit) }

  -- `str(int(60 / self._settings.requests_per_minute))`
  unfoldable pub refusal : ℕ → Answer
  refusal zero = zero_division
  refusal (suc n) = too_many (decimal (60 / suc n))

  -- dispatch on the bucket of the client
  unfoldable pub dispatch_bucket : ℕ → Bucket → Answer × Bucket
  unfolding refill take_token refusal
  dispatch_bucket now b =
      let full = refill now b in
      if is_empty full
      then (refusal settings.requests_per_minute, full)
      else (passed, take_token full)

  -- `self._buckets[client_ip]` of the defaultdict, with the clock after it
  unfoldable pub bucket_of : Option Bucket → Limiter → Bucket × Limiter
  unfolding new_bucket
  bucket_of (some b) s = (b, s)
  bucket_of none s = (new_bucket (s.clock 0), record s { clock = λ n. s.clock (suc n) })

  -- `request.client.host if request.client else "unknown"`
  abbrev pub client_ip : Option String → String
  client_ip none = "unknown"
  client_ip (some host) = host

  unfoldable pub dispatch : String → Option String → Limiter → Answer × Limiter
  unfolding bucket_of dispatch_bucket
  dispatch path client s =
      let ip = client_ip client in
      let (b, t) = bucket_of (get ip s.buckets) s in
      let (answer, after) = dispatch_bucket (t.clock 0) b in
      if starts_with path "/health"
      then (passed, s)
      else (answer, record { buckets = put ip after s.buckets; clock = λ n. t.clock (suc n) })
