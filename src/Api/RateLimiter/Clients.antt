-- ===== src/Api/RateLimiter/Clients.antt =====
-- How many requests of one client are passed on, whatever the other clients send.
use native.Mathlib.Nat.{mul-le-mul_right, le_trans, add-mul}
use multi_cloud_ai_orchestra.Base.{
  ◌≡◌, refl, sym, subst, ℕ, suc, ◌+◌, ◌*◌, ◌≤◌, String, str_eq, eq_iff, Bool, true, false, not,
  ◌&&◌, ◌||◌, ltb, List, [], ◌∷◌, Option, none, some, arith, if◌then◌else◌, inl, inr, Bool-cases,
}
use text.Mathlib.Text.{starts_with}
use multi_cloud_ai_orchestra.Base.Dict.{get, get-put}
use multi_cloud_ai_orchestra.Api.RateLimiter.{
  RateLimitSettings, Bucket, Answer, passed, too_many, zero_division, Limiter, burst, token,
  client_ip, bucket_of, new_bucket, dispatch_bucket, dispatch,
}
use multi_cloud_ai_orchestra.Api.RateLimiter.Bound.{
  IsCurrent, available, cost, dispatch-cost, dispatch-passed,
}

-- A clock that does not go back.
abbrev pub IsMonotone : (ℕ → ℕ) → Type 0
IsMonotone clock = (n : ℕ) → clock n ≤ clock (suc n)

-- A request: its path and the address of its client.
abbrev pub Request : Type 0
Request = String × Option String

abbrev pub is_passed : Answer → Bool
is_passed passed = true
is_passed _ = false

module _ (hz : ℕ) (settings : RateLimitSettings) where
  -- The limiter after these requests.
  abbrev pub after : List Request → Limiter → Limiter
  after [] s = s
  after ((path, client) ∷ requests) s = after requests (dispatch hz settings path client s).1

  -- `request` is limited and comes from the client at `ip`.
  abbrev pub counts : String → Request → Bool
  counts ip (path, client) =
      not (starts_with path "/health") && str_eq (client_ip hz settings client) ip

  -- The shares that the requests of the client at `ip` which are passed on have cost.
  abbrev pub spent : String → List Request → Limiter → ℕ
  spent ip [] s = 0
  spent ip (request ∷ requests) s =
      let (answer, t) = dispatch hz settings request.0 request.1 s in
      (if counts ip request then cost hz settings answer else 0) + spent ip requests t

  -- The bucket of a client, current or not made yet.
  abbrev pub IsCurrentOf : Option Bucket → ℕ → Type 0
  IsCurrentOf none t = Unit
  IsCurrentOf (some b) t = IsCurrent hz settings b t

  abbrev pub funds : Option Bucket → ℕ → ℕ
  funds none t = burst hz settings
  funds (some b) t = available hz settings b t

  -- One request, for the bucket of the client at `ip`.
  abbrev Step : String → Request → Limiter → Type 0
  Step ip (path, client) s =
      let (answer, t) = dispatch hz settings path client s in
      IsMonotone t.clock
      × (s.clock 0 ≤ t.clock 0)
      × IsCurrentOf (get ip t.buckets) (t.clock 0)
      × ((if counts ip (path, client) then cost hz settings answer else 0)
            + funds (get ip t.buckets) (t.clock 0)
            + s.clock 0 * settings.requests_per_minute
          ≤ funds (get ip s.buckets) (s.clock 0) + t.clock 0 * settings.requests_per_minute)

  opens-clock :
      (o : Option Bucket) (s : Limiter)
      → IsMonotone s.clock
      → let (b, t) = bucket_of hz settings o s in IsMonotone t.clock × (s.clock 0 ≤ t.clock 0)
  unfolding bucket_of
  opens-clock (some b) s mono = (mono, omega arith)
  opens-clock none s mono = (λ n. mono (suc n), mono 0)

  -- The bucket that a request is charged to.
  opened :
      (o : Option Bucket) (s : Limiter)
      → IsCurrentOf o (s.clock 0)
      → let (b, t) = bucket_of hz settings o s in
        IsCurrent hz settings b (s.clock 0)
        × (available hz settings b (s.clock 0) ≤ funds o (s.clock 0))
  unfolding bucket_of new_bucket
  opened (some b) s current = (current, omega arith)
  opened none s current =
      (record { no_debt = refl; bounded = omega arith; past = omega arith }, omega arith)

  -- Time passes for a bucket that is not charged.
  waits :
      (o : Option Bucket) (t t' : ℕ)
      → IsCurrentOf o t
      → t ≤ t'
      → IsCurrentOf o t'
        × (funds o t' + t * settings.requests_per_minute
            ≤ funds o t + t' * settings.requests_per_minute)
  waits none t t' current le = (tt, omega (arith, mul-le-mul_right settings.requests_per_minute le))
  waits (some b) t t' current le = (
    record {
      no_debt = current.no_debt;
      bounded = current.bounded;
      past = le_trans current.past le;
    },
    ground (
      arith,
      mul-le-mul_right settings.requests_per_minute le,
      mul-le-mul_right settings.requests_per_minute current.past,
    ),
  )

  step :
      (ip : String) (request : Request) (s : Limiter)
      → IsMonotone s.clock
      → IsCurrentOf (get ip s.buckets) (s.clock 0)
      → Step ip request s
  unfolding dispatch
  step ip (path, client) s mono current = elim (Bool-cases (starts_with path "/health")) [
    | inl health ↦ rw health (mono, omega arith, current, omega arith)
    | inr limited ↦
        let cip = client_ip hz settings client in
        let (b, t) = bucket_of hz settings (get cip s.buckets) s in
        let (mono', le) = opens-clock (get cip s.buckets) s mono in
        let le' = le_trans le (mono' 0) in
        elim (Bool-cases (str_eq cip ip)) [
          | inl own ↦
              let same : cip ≡ ip = (eq_iff cip ip).0 own in
              let (current', cheap) =
                opened (get cip s.buckets) s
                  (subst (λ j. IsCurrentOf (get j s.buckets) (s.clock 0)) (sym same) current) in
              let (kept, paid) =
                dispatch-cost hz settings b (s.clock 0) (t.clock 0) (t.clock 1) current' le
                  (mono' 0) in
              let funded =
                subst
                  (λ j. available hz settings b (s.clock 0) ≤ funds (get j s.buckets) (s.clock 0))
                  same cheap in
              rw
                (
                  limited,
                  get-put cip ip (dispatch_bucket hz settings (t.clock 0) b).1 s.buckets,
                  own,
                )
                (λ n. mono' (suc n), le', kept, omega (arith, paid, funded))
          | inr other ↦
              let (kept, paid) = waits (get ip s.buckets) (s.clock 0) (t.clock 1) current le' in
              rw
                (
                  limited,
                  get-put cip ip (dispatch_bucket hz settings (t.clock 0) b).1 s.buckets,
                  other,
                )
                (λ n. mono' (suc n), le', kept, omega (arith, paid))
        ]
  ]

  funds-burst : (o : Option Bucket) (t : ℕ) → funds o t ≤ burst hz settings
  funds-burst none t = omega arith
  funds-burst (some b) t = omega arith

  spent-funds :
      (ip : String) (requests : List Request) (s : Limiter)
      → IsMonotone s.clock
      → IsCurrentOf (get ip s.buckets) (s.clock 0)
      → spent ip requests s + s.clock 0 * settings.requests_per_minute
        ≤ funds (get ip s.buckets) (s.clock 0)
          + (after requests s).clock 0 * settings.requests_per_minute
  spent-funds ip [] s mono current = omega arith
  spent-funds ip ((path, client) ∷ requests) s mono current =
      let (mono', le, current', paid) = step ip (path, client) s mono current in
      let t = (dispatch hz settings path client s).1 in
      omega (arith, paid, spent-funds ip requests t mono' current')

  -- How many requests of the client at `ip` are passed on.
  abbrev pub passed_once : Answer → ℕ
  passed_once passed = 1
  passed_once (too_many retry_after) = 0
  passed_once zero_division = 0

  abbrev pub admitted : String → List Request → Limiter → ℕ
  admitted ip [] s = 0
  admitted ip (request ∷ requests) s =
      let (answer, t) = dispatch hz settings request.0 request.1 s in
      (if counts ip request then passed_once answer else 0) + admitted ip requests t

  cost-passed_once :
      (c : Bool) (answer : Answer)
      → (if c then passed_once answer else 0) * token hz settings
        ≡ (if c then cost hz settings answer else 0)
  cost-passed_once true passed = omega arith
  cost-passed_once true (too_many retry_after) = omega arith
  cost-passed_once true zero_division = omega arith
  cost-passed_once false answer = omega arith

  spent-admitted :
      (ip : String) (requests : List Request) (s : Limiter)
      → admitted ip requests s * token hz settings ≡ spent ip requests s
  spent-admitted ip [] s = omega arith
  spent-admitted ip ((path, client) ∷ requests) s =
      let (answer, t) = dispatch hz settings path client s in
      rw (add-mul, cost-passed_once (counts ip (path, client)) answer, spent-admitted ip requests t)
        refl

  opened-funds :
      (o : Option Bucket) (s : Limiter)
      → funds o (s.clock 0) ≤ available hz settings (bucket_of hz settings o s).0 (s.clock 0)
  unfolding bucket_of new_bucket
  opened-funds (some b) s = omega arith
  opened-funds none s = ground arith

  passes :
      (path : String) (client : Option String) (s : Limiter)
      → IsMonotone s.clock
      → starts_with path "/health" ≡ false
      → IsCurrentOf (get (client_ip hz settings client) s.buckets) (s.clock 0)
      → token hz settings ≤ funds (get (client_ip hz settings client) s.buckets) (s.clock 0)
      → (dispatch hz settings path client s).0 ≡ passed
  unfolding dispatch
  passes path client s mono limited current rich =
      let o = get (client_ip hz settings client) s.buckets in
      let (b, t) = bucket_of hz settings o s in
      let (current', _) = opened o s current in
      rw limited (
        dispatch-passed hz settings b (s.clock 0) (t.clock 0) current' (opens-clock o s mono).1
          (le_trans rich (opened-funds o s)))

  health-passed :
      (path : String) (client : Option String) (s : Limiter)
      → starts_with path "/health" ≡ true
      → is_passed (dispatch hz settings path client s).0 ≡ true
  unfolding dispatch
  health-passed path client s health = rw health refl

  poor_or_passed :
      (path : String) (client : Option String) (s : Limiter)
      → IsMonotone s.clock
      → IsCurrentOf (get (client_ip hz settings client) s.buckets) (s.clock 0)
      → (ltb (funds (get (client_ip hz settings client) s.buckets) (s.clock 0)) (token hz settings)
          || is_passed (dispatch hz settings path client s).0)
        ≡ true
  poor_or_passed path client s mono current =
      let available_now = funds (get (client_ip hz settings client) s.buckets) (s.clock 0) in
      elim (Bool-cases (starts_with path "/health")) [
        | inl health ↦ ground (arith, health-passed path client s health)
        | inr limited ↦ elim (Bool-cases (ltb available_now (token hz settings))) [
          | inl poor ↦ rw poor refl
          | inr rich ↦ rw (rich, passes path client s mono limited current (ground arith)) refl
        ]
      ]

  -- For a clock that does not go back, and a bucket that the middleware has made for the client of a
  -- request, or none yet: whatever requests arrive, of any clients, those of this client that are
  -- passed on, without the ones to paths that start with /health, which are not limited, are no more
  -- than the burst size and what the rate gives for the time from the start to the next reading of
  -- the clock; and the request itself, sent at the start, is passed on unless the client has less
  -- than one token left at this time, where a client without a bucket has the burst size.
  pub dispatch_bound :
      (path : String) (client : Option String) (requests : List Request) (s : Limiter)
      → IsMonotone s.clock
      → IsCurrentOf (get (client_ip hz settings client) s.buckets) (s.clock 0)
      → let ip = client_ip hz settings client in
        (admitted ip requests s * (60 * hz) + s.clock 0 * settings.requests_per_minute
          ≤ settings.burst_size * (60 * hz)
            + (after requests s).clock 0 * settings.requests_per_minute)
        × ((ltb (funds (get ip s.buckets) (s.clock 0)) (token hz settings)
              || is_passed (dispatch hz settings path client s).0)
            ≡ true)
  dispatch_bound path client requests s mono current =
      let ip = client_ip hz settings client in
      (
        omega (
          arith,
          spent-funds ip requests s mono current,
          spent-admitted ip requests s,
          funds-burst (get ip s.buckets) (s.clock 0),
        ),
        poor_or_passed path client s mono current,
      )
