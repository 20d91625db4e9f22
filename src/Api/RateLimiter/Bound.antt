-- ===== src/Api/RateLimiter/Bound.antt =====
-- How many requests of a client are passed on.
use native.Mathlib.Nat.{mul-le-mul_right, le_trans}
use multi_cloud_ai_orchestra.Base.{
  ◌≡◌, refl, ℕ, zero, suc, ◌+◌, ◌-◌, ◌*◌, ◌≤◌, min, false, ltb, arith, inl, inr, Bool-cases,
}
use multi_cloud_ai_orchestra.Api.RateLimiter.{
  RateLimitSettings, Bucket, Answer, passed, too_many, zero_division, refill, take_token, refusal,
  dispatch_bucket, token, burst, is_empty,
}

module _ (hz : ℕ) (settings : RateLimitSettings) where
  abbrev rpm : ℕ
  rpm = settings.requests_per_minute

  -- The shares of a bucket at a time: what a request at this time would find.
  abbrev pub available : Bucket → ℕ → ℕ
  available b t = min (burst hz settings) (b.credit + t * rpm - b.last_refill * rpm)

  -- A bucket of a clock that has not gone back.
  pub record IsCurrent (b : Bucket) (t : ℕ) : Type 0 where
    pub no_debt : b.debt ≡ 0
    pub bounded : b.credit ≤ burst hz settings
    pub past : b.last_refill ≤ t

  -- The shares that an answer costs.
  abbrev pub cost : Answer → ℕ
  cost passed = token hz settings
  cost (too_many retry_after) = 0
  cost zero_division = 0

  cost-refusal : (n : ℕ) → cost (refusal hz settings n) ≡ 0
  unfolding refusal
  cost-refusal zero = refl
  cost-refusal (suc n) = refl

  refill-credit :
      (b : Bucket) (t now : ℕ)
      → IsCurrent b t
      → t ≤ now
      → (refill hz settings now b).credit ≡ available b now
  unfolding refill
  refill-credit b t now current le =
      let grows : b.last_refill * rpm ≤ now * rpm =
        mul-le-mul_right rpm (le_trans current.past le) in
      ground (arith, current.no_debt, grows)

  refill-debt :
      (b : Bucket) (t now : ℕ) → IsCurrent b t → t ≤ now → (refill hz settings now b).debt ≡ 0
  unfolding refill
  refill-debt b t now current le =
      let grows : b.last_refill * rpm ≤ now * rpm =
        mul-le-mul_right rpm (le_trans current.past le) in
      ground (arith, current.no_debt, grows)

  -- The arithmetic of one request, over shares: `last`, `here`, `now` and `then'` are times.
  balance :
      (cap credit last here now then' cost full : ℕ)
      → credit ≤ cap
      → last ≤ here
      → here ≤ now
      → now ≤ then'
      → full ≡ min cap (credit + now - last)
      → cost ≤ full
      → cost + min cap (full - cost + then' - now) + here ≤ min cap (credit + here - last) + then'
  balance cap credit last here now then' cost full b1 b2 b3 b4 e c = ground arith

  refill-last : (b : Bucket) (now : ℕ) → (refill hz settings now b).last_refill ≡ now
  unfolding refill
  refill-last b now = ground arith

  refill-IsCurrent :
      (b : Bucket) (t now : ℕ) → IsCurrent b t → t ≤ now → IsCurrent (refill hz settings now b) now
  refill-IsCurrent b t now current le = record {
    no_debt = refill-debt b t now current le;
    bounded = rw (refill-credit b t now current le) (ground arith);
    past = rw (refill-last b now) (omega arith);
  }

  has_token :
      (credit debt : ℕ)
      → ltb credit (debt + token hz settings) ≡ false
      → debt ≡ 0
      → token hz settings ≤ credit
  has_token credit debt f none_owed = ground arith

  owes_nothing : (credit debt cost : ℕ) → cost ≤ credit → debt ≡ 0 → debt + (cost - credit) ≡ 0
  owes_nothing credit debt cost enough none_owed = omega arith

  no_cost : (a : ℕ) → a - 0 ≡ a
  no_cost a = omega arith

  sub-le : (a b : ℕ) → a - b ≤ a
  sub-le a b = omega arith

  -- What the bucket of a client keeps and costs at one request.
  pub dispatch-cost :
      (b : Bucket) (t now t' : ℕ)
      → IsCurrent b t
      → t ≤ now
      → now ≤ t'
      → let (answer, after) = dispatch_bucket hz settings now b in
        IsCurrent after t' × (cost answer + available after t' + t * rpm ≤ available b t + t' * rpm)
  unfolding dispatch_bucket take_token
  dispatch-cost b t now t' current le le' =
      let full = refill hz settings now b in
      let kept = refill-IsCurrent b t now current le in
      let weigh = λ (c : ℕ) (h : c ≤ full.credit).
        balance (burst hz settings) b.credit (b.last_refill * rpm) (t * rpm) (now * rpm) (t' * rpm)
          c full.credit current.bounded (mul-le-mul_right rpm current.past)
          (mul-le-mul_right rpm le) (mul-le-mul_right rpm le') (refill-credit b t now current le)
          h in
      elim (Bool-cases (is_empty hz settings full)) [
        | inl e ↦
            rw (e, cost-refusal settings.requests_per_minute, refill-last b now)
              (
                record {
                  no_debt = kept.no_debt;
                  bounded = kept.bounded;
                  past = le_trans kept.past le';
                },
                rw (no_cost full.credit) at (weigh 0 (omega arith)),
              )
        | inr f ↦
            let enough : token hz settings ≤ full.credit =
              has_token full.credit full.debt f kept.no_debt in
            rw (f, refill-last b now)
              (
                record {
                  no_debt =
                      owes_nothing full.credit full.debt (token hz settings) enough kept.no_debt;
                  bounded = le_trans (sub-le full.credit (token hz settings)) kept.bounded;
                  past = le';
                },
                weigh (token hz settings) enough,
              )
      ]

  has_some :
      (credit debt before now : ℕ)
      → debt ≡ 0
      → credit ≡ now
      → before ≤ now
      → token hz settings ≤ before
      → ltb credit (debt + token hz settings) ≡ false
  has_some credit debt before now h e le rich = ground arith

  grows_available :
      (b : Bucket) (t now : ℕ) → IsCurrent b t → t ≤ now → available b t ≤ available b now
  grows_available b t now current le =
      ground (arith, mul-le-mul_right rpm le, mul-le-mul_right rpm current.past)

  pub dispatch-passed :
      (b : Bucket) (t now : ℕ)
      → IsCurrent b t
      → t ≤ now
      → token hz settings ≤ available b t
      → (dispatch_bucket hz settings now b).0 ≡ passed
  unfolding dispatch_bucket
  dispatch-passed b t now current le rich =
      rw
        (has_some (refill hz settings now b).credit (refill hz settings now b).debt (available b t)
          (available b now) (refill-debt b t now current le) (refill-credit b t now current le)
          (grows_available b t now current le) rich)
        refl
