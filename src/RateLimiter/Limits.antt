-- ===== src/RateLimiter/Limits.antt =====
-- The counters of open connections.
use cipher_mq.Common.{
  get, inr, not, ◌&&◌, ◌⊎◌, List, [], ◌∷◌, get, ℕ, ◌+◌, ◌-◌, ◌≤◌, ◌≡◌, inl, inr, String, ◌||◌, ◌==◌,
  if◌then◌else◌, Table, get, insert, arith, eq_iff, get-insert, get-remove, Option-cases,
}
use cipher_mq.RateLimiter.{
  new, RateLimitConfig, RateLimiter, allowed, connection_limit, count_of, dec, is_full,
  check_connection, release_connection,
}

pub count_of-insert :
    (j k : String) (n : ℕ) (m : Table ℕ)
    → count_of j (insert k n m) ≡ (if k == j then n else count_of j m)
count_of-insert j k n m = ground (arith, get-insert j k n m)

-- `dec` lowers one counter by one, and stops at 0.
pub count_of-dec :
    (j k : String) (m : Table ℕ)
    → count_of j (dec k m) ≡ (if k == j then count_of k m - 1 else count_of j m)
unfolding dec
count_of-dec j k m = elim (Option-cases (get k m)) [
  | inl missing ↦ ground (arith, eq_iff k j)
  | inr (v, found) ↦ ground (arith, eq_iff k j, get-insert j k (v - 1) m, get-remove j k m)
]

module _ {F : Type 0} where
  -- A connection is refused exactly when one of the two limits is set and reached; then no counter
  -- changes, and otherwise the counters of its address and of its name go up by one and no other.
  pub check_connection_lem :
      (cn ip k : String) (l : RateLimiter F)
      → let full =
          is_full l.config.max_connections_per_ip (count_of ip l.connections.by_ip)
          || is_full l.config.max_connections_per_cn (count_of cn l.connections.by_cn) in
        ((check_connection cn ip l).0 ≡ (if full then connection_limit else allowed))
        × (count_of k (check_connection cn ip l).1.connections.by_ip
            ≡ count_of k l.connections.by_ip + (if not full && (ip == k) then 1 else 0))
        × (count_of k (check_connection cn ip l).1.connections.by_cn
            ≡ count_of k l.connections.by_cn + (if not full && (cn == k) then 1 else 0))
  unfolding check_connection
  check_connection_lem cn ip k l = (
    ground arith,
    ground (
      arith,
      eq_iff ip k,
      count_of-insert k ip (count_of ip l.connections.by_ip + 1) l.connections.by_ip,
    ),
    ground (
      arith,
      eq_iff cn k,
      count_of-insert k cn (count_of cn l.connections.by_cn + 1) l.connections.by_cn,
    ),
  )

  -- Releasing a connection that was accepted brings every counter back.
  pub release_connection-check_connection :
      (cn ip k : String) (l : RateLimiter F)
      → (check_connection cn ip l).0 ≡ allowed
      → (count_of k (release_connection cn ip (check_connection cn ip l).1).connections.by_ip
          ≡ count_of k l.connections.by_ip)
        × (count_of k (release_connection cn ip (check_connection cn ip l).1).connections.by_cn
            ≡ count_of k l.connections.by_cn)
  unfolding release_connection check_connection
  release_connection-check_connection cn ip k l h = ground (
    arith,
    eq_iff ip k,
    eq_iff cn k,
    count_of-dec k ip (insert ip (count_of ip l.connections.by_ip + 1) l.connections.by_ip),
    count_of-dec k cn (insert cn (count_of cn l.connections.by_cn + 1) l.connections.by_cn),
    count_of-insert k ip (count_of ip l.connections.by_ip + 1) l.connections.by_ip,
    count_of-insert k cn (count_of cn l.connections.by_cn + 1) l.connections.by_cn,
    count_of-insert ip ip (count_of ip l.connections.by_ip + 1) l.connections.by_ip,
    count_of-insert cn cn (count_of cn l.connections.by_cn + 1) l.connections.by_cn,
  )

  -- No counter exceeds a limit that is set.
  pub record WithinLimits (l : RateLimiter F) : Type 0 where
    pub by_ip :
        (k : String)
        → (l.config.max_connections_per_ip ≡ 0)
          ⊎ (count_of k l.connections.by_ip ≤ l.config.max_connections_per_ip)
    pub by_cn :
        (k : String)
        → (l.config.max_connections_per_cn ≡ 0)
          ⊎ (count_of k l.connections.by_cn ≤ l.config.max_connections_per_cn)

  check_connection-WithinLimits :
      (cn ip : String) (l : RateLimiter F)
      → WithinLimits l
      → WithinLimits (check_connection cn ip l).1
  unfolding check_connection
  check_connection-WithinLimits cn ip l v = record {
    by_ip = λ k. ground (
      arith,
      v.by_ip k,
      count_of-insert k ip (count_of ip l.connections.by_ip + 1) l.connections.by_ip,
    );
    by_cn = λ k. ground (
      arith,
      v.by_cn k,
      count_of-insert k cn (count_of cn l.connections.by_cn + 1) l.connections.by_cn,
    );
  }

  release_connection-WithinLimits :
      (cn ip : String) (l : RateLimiter F)
      → WithinLimits l
      → WithinLimits (release_connection cn ip l)
  unfolding release_connection
  release_connection-WithinLimits cn ip l v = record {
    by_ip = λ k. ground (arith, eq_iff ip k, v.by_ip k, count_of-dec k ip l.connections.by_ip);
    by_cn = λ k. ground (arith, eq_iff cn k, v.by_cn k, count_of-dec k cn l.connections.by_cn);
  }

-- What happens to the counters: a connection asks to be let in, or one is released.
pub data Change : Type 0 where
  connects releases : String → String → Change

module _ {F : Type 0} where
  pub changes : List Change → RateLimiter F → RateLimiter F
  changes [] l = l
  changes (connects cn ip ∷ cs) l = changes cs (check_connection cn ip l).1
  changes (releases cn ip ∷ cs) l = changes cs (release_connection cn ip l)

  changes-WithinLimits :
      (cs : List Change) (l : RateLimiter F) → WithinLimits l → WithinLimits (changes cs l)
  unfolding changes
  changes-WithinLimits [] l v = v
  changes-WithinLimits (connects cn ip ∷ cs) l v =
      changes-WithinLimits cs (check_connection cn ip l).1 (check_connection-WithinLimits cn ip l v)
  changes-WithinLimits (releases cn ip ∷ cs) l v =
      changes-WithinLimits cs (release_connection cn ip l)
        (release_connection-WithinLimits cn ip l v)

  -- Whatever connections ask to be let in and are released, in whatever order, a new limiter never
  -- counts more for an address or a name than the limit for it, where one is set.
  pub changes-new-WithinLimits :
      (cs : List Change) (config : RateLimitConfig F) → WithinLimits (changes cs (new config))
  unfolding new get
  changes-new-WithinLimits cs config =
      changes-WithinLimits cs (new config)
        (record { by_ip = λ k. inr (ground arith); by_cn = λ k. inr (ground arith) })
