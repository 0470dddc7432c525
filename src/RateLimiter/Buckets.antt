-- ===== src/RateLimiter/Buckets.antt =====
-- The buckets never hold more than their burst.
use mathlib.Core.Option
use cipher_mq.Common.{
  ℕ, ◌-◌, ◌≡◌, ◌⊎◌, refl, inl, inr, String, Bool, true, Option, none, some, List, [], ◌∷◌, Table,
  All, get, arith, All-insert, All-get, Option-cases,
}
use cipher_mq.RateLimiter.{
  Float, Bucket, RateLimitConfig, RateLimiter, new, new_bucket, take, take_for, check,
}

-- What IEEE 754 arithmetic gives: the minimum with a number is at most that number (which is not a
-- NaN where it is at most itself), and to take one away from a value makes it no larger.
pub record FloatLaws {F : Type 0} (float : Float F) : Type 0 where
  pub min_le : (a b : F) → float.le b b ≡ true → float.le (float.min a b) b ≡ true
  pub sub_one_le : (a b : F) → float.le a b ≡ true → float.le (float.sub a float.one) b ≡ true

-- A request of some client, to publish or not, at some time.
pub record Request : Type 0 where
  pub cn : String
  pub is_publish : Bool
  pub now : ℕ

-- The limiter after a sequence of requests.
module _ {F : Type 0} (float : Float F) where
  pub checks : List Request → RateLimiter F → RateLimiter F
  checks [] l = l
  checks (r ∷ rs) l = checks rs (check float r.cn r.is_publish r.now l).1

  abbrev pub BucketValid : F → String × Bucket F → Type 0
  BucketValid burst e = (e.1.burst ≡ burst) × (float.le e.1.tokens burst ≡ true)

  -- Every bucket has the configured burst and holds at most that.
  pub record IsBounded (l : RateLimiter F) : Type 0 where
    pub global : All (BucketValid l.config.global_burst) l.global
    pub publish : All (BucketValid l.config.publish_burst) l.publish

module _ {F : Type 0} (float : Float F) (laws : FloatLaws float) where
  take-BucketValid :
      (cn : String) (burst : F) (now : ℕ) (b : Bucket F)
      → float.le burst burst ≡ true
      → BucketValid float burst (cn, b)
      → BucketValid float burst (cn, (take float now b).1)
  unfolding take
  take-BucketValid cn burst now b n v =
      let tokens =
        float.min (float.add b.tokens (float.mul (float.seconds (now - b.last)) b.rps)) b.burst in
      let bounded : float.le tokens burst ≡ true = rw (v.0) (laws.min_le _ burst n) in
      (ground arith, ground (arith, bounded, laws.sub_one_le tokens burst bounded))

  take_for-BucketValid :
      (now : ℕ) (burst rps : F) (cn : String) (buckets : Table (Bucket F))
      → float.le burst burst ≡ true
      → All (BucketValid float burst) buckets
      → All (BucketValid float burst) (take_for float now burst rps cn buckets).1
  unfolding take_for new_bucket
  take_for-BucketValid now burst rps cn buckets n v =
      All-insert (BucketValid float burst) cn _ buckets
        (take-BucketValid cn burst now (current (get cn buckets)) n
          (valid (Option-cases (get cn buckets))))
        v
    where
      current : Option (Bucket F) → Bucket F
      current o = Option.get_or o (new_bucket float now burst rps)

      valid :
          (get cn buckets ≡ none) ⊎ ((b : Bucket F) × (get cn buckets ≡ some b))
          → BucketValid float burst (cn, current (get cn buckets))
      valid (inl missing) = rw missing (refl, n)
      valid (inr (b, found)) = rw found (All-get (BucketValid float burst) cn b buckets v found)

  check-IsBounded :
      (r : Request) (l : RateLimiter F)
      → float.le l.config.global_burst l.config.global_burst ≡ true
      → float.le l.config.publish_burst l.config.publish_burst ≡ true
      → IsBounded float l
      → IsBounded float (check float r.cn r.is_publish r.now l).1
        × ((check float r.cn r.is_publish r.now l).1.config ≡ l.config)
  unfolding check
  check-IsBounded r l ng np v =
      let c = l.config in
      ground (
        arith,
        take_for-BucketValid r.now c.global_burst c.global_rps r.cn l.global ng v.global,
        take_for-BucketValid r.now c.publish_burst c.publish_rps r.cn l.publish np v.publish,
      )

  checks-IsBounded :
      (rs : List Request) (l : RateLimiter F)
      → float.le l.config.global_burst l.config.global_burst ≡ true
      → float.le l.config.publish_burst l.config.publish_burst ≡ true
      → IsBounded float l
      → IsBounded float (checks float rs l)
  unfolding checks
  checks-IsBounded [] l ng np v = v
  checks-IsBounded (r ∷ rs) l ng np v =
      let (v', same) = check-IsBounded r l ng np v in
      checks-IsBounded rs (check float r.cn r.is_publish r.now l).1 (rw same ng) (rw same np) v'

  -- Whatever requests come at whatever times, no bucket of a new limiter ever holds more than the
  -- configured burst, under the laws above and where neither burst is a NaN.
  pub checks-new-IsBounded :
      (rs : List Request) (config : RateLimitConfig F)
      → float.le config.global_burst config.global_burst ≡ true
      → float.le config.publish_burst config.publish_burst ≡ true
      → IsBounded float (checks float rs (new config))
  unfolding new
  checks-new-IsBounded rs config ng np =
      checks-IsBounded rs (new config) ng np (record { global = tt; publish = tt })
