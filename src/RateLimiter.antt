-- ===== src/RateLimiter.antt =====
-- server/src/rate_limiter.rs: token buckets for requests and counters for connections. An `f64` is
-- a value of an abstract type with the operations that the buckets use; an `Instant` is a number of
-- milliseconds.
pub mod Buckets
pub mod Limits
use mathlib.Core.Option
use cipher_mq.Common.{
  ℕ, ◌+◌, ◌-◌, String, Bool, true, false, ◌&&◌, Option, none, some, [], ltb, leb, if◌then◌else◌,
  Table, get, insert, remove,
}

-- The arithmetic of `f64`; `seconds` is `as_secs_f64` of a duration.
pub record Float (F : Type 0) : Type 0 where
  pub add : F → F → F
  pub sub : F → F → F
  pub mul : F → F → F
  pub min : F → F → F
  pub le : F → F → Bool
  pub one : F
  pub seconds : ℕ → F

pub record Bucket (F : Type 0) : Type 0 where
  pub tokens : F
  pub last : ℕ
  pub burst : F
  pub rps : F

pub record RateLimitConfig (F : Type 0) : Type 0 where
  pub global_rps : F
  pub global_burst : F
  pub publish_rps : F
  pub publish_burst : F
  pub max_connections_per_ip : ℕ
  pub max_connections_per_cn : ℕ

pub data RateLimitResult : Type 0 where
  allowed rate_limited connection_limit : RateLimitResult

abbrev pub is_allowed : RateLimitResult → Bool
is_allowed allowed = true
is_allowed _ = false

pub record Connections : Type 0 where
  pub by_ip : Table ℕ
  pub by_cn : Table ℕ

pub record RateLimiter (F : Type 0) : Type 0 where
  pub config : RateLimitConfig F
  pub global : Table (Bucket F)
  pub publish : Table (Bucket F)
  pub connections : Connections

-- A counter that is missing counts as 0.
abbrev pub count_of : String → Table ℕ → ℕ
count_of k m = Option.get_or (get k m) 0

-- `dec`
unfoldable pub dec : String → Table ℕ → Table ℕ
dec k m = elim (get k m) [ none ↦ m | some v ↦ if ltb 1 v then insert k (v - 1) m else remove k m ]

-- A limit of 0 is no limit.
abbrev pub is_full : ℕ → ℕ → Bool
is_full max n = ltb 0 max && leb max n

module _ {F : Type 0} (float : Float F) where
  unfoldable pub new_bucket : ℕ → F → F → Bucket F
  new_bucket now burst rps = record { tokens = burst; last = now; burst = burst; rps = rps }

  unfoldable pub take : ℕ → Bucket F → Bool × Bucket F
  take now b =
      let tokens =
        float.min (float.add b.tokens (float.mul (float.seconds (now - b.last)) b.rps)) b.burst in
      if float.le float.one tokens
      then (true, record b { tokens = float.sub tokens float.one; last = now })
      else (false, record b { tokens = tokens; last = now })

  -- `entry(cn).or_insert_with(…).take()`
  unfoldable pub take_for : ℕ → F → F → String → Table (Bucket F) → Bool × Table (Bucket F)
  unfolding take new_bucket
  take_for now burst rps cn buckets =
      let (taken, b) = take now (Option.get_or (get cn buckets) (new_bucket now burst rps)) in
      (taken, insert cn b buckets)

  unfoldable pub check : String → Bool → ℕ → RateLimiter F → RateLimitResult × RateLimiter F
  unfolding take_for
  check cn is_publish now l =
      let (taken, global) = take_for now l.config.global_burst l.config.global_rps cn l.global in
      let l₁ : RateLimiter F = record l { global = global } in
      let (taken', publish) =
        take_for now l.config.publish_burst l.config.publish_rps cn l.publish in
      if taken
      then (if is_publish
          then (if taken' then allowed else rate_limited, record l₁ { publish = publish })
          else (allowed, l₁))
      else (rate_limited, l₁)

module _ {F : Type 0} where
  unfoldable pub new : RateLimitConfig F → RateLimiter F
  new config = record {
    config = config;
    global = [];
    publish = [];
    connections = record { by_ip = []; by_cn = [] };
  }

  unfoldable pub check_connection :
      String → String → RateLimiter F → RateLimitResult × RateLimiter F
  check_connection cn ip l =
      let c = l.connections in
      if is_full l.config.max_connections_per_ip (count_of ip c.by_ip)
      then (connection_limit, l)
      else if is_full l.config.max_connections_per_cn (count_of cn c.by_cn)
      then (connection_limit, l)
      else (
        allowed,
        record l {
          connections = record {
            by_ip = insert ip (count_of ip c.by_ip + 1) c.by_ip;
            by_cn = insert cn (count_of cn c.by_cn + 1) c.by_cn;
          };
        },
      )

  unfoldable pub release_connection : String → String → RateLimiter F → RateLimiter F
  unfolding dec
  release_connection cn ip l = record l {
    connections = record { by_ip = dec ip l.connections.by_ip; by_cn = dec cn l.connections.by_cn };
  }
