-- ===== src/Tests/Rules.antt =====
-- Runs of the access rules (server/src/acl.rs), of the rate limiter (server/src/rate_limiter.rs) and
-- of the heartbeats (server/src/main.rs).
use cipher_mq.Common.{
  ℕ, ◌+◌, ◌-◌, ◌*◌, ◌/◌, ◌≤◌, ◌≡◌, ◌↔◌, refl, true, false, List, [], ◌∷◌, if◌then◌else◌, leb, get,
  format, arith,
}
use cipher_mq.Acl.{
  Role, AclManager, AuthResult, sender, receiver, admin, unknown, resolve_role, check_command,
  check_resource,
}
use cipher_mq.Acl
use cipher_mq.Acl.Commands.{matrix, cell, check_command_iff}
use cipher_mq.Acl.Resources.{extended_name_shares_queue}
use cipher_mq.RateLimiter.{
  Float, RateLimitConfig, RateLimiter, check_connection, release_connection, is_full, count_of,
  connection_limit,
}
use cipher_mq.RateLimiter
use cipher_mq.RateLimiter.Buckets.{FloatLaws, Request, checks, IsBounded, checks-new-IsBounded}
use cipher_mq.RateLimiter.Limits.{
  Change, connects, releases, changes, WithinLimits, changes-new-WithinLimits,
}
use cipher_mq.Heartbeat.{HeartbeatMonitor, is_alive, monitor_task, is_alive-monitor_task}

abbrev pub acl : AclManager
acl = record { sender_cns = "s" ∷ "x" ∷ []; receiver_cns = "r" ∷ "x" ∷ []; admin_cns = "a" ∷ [] }

check_command_iff_example :
    (check_command receiver "bind" ≡ Acl.allowed) ↔ (cell receiver (get "bind" matrix) ≡ true)
check_command_iff_example = check_command_iff receiver "bind"

extended_name_shares_queue_example :
    (check_resource receiver "bob" "queue" (format ("bob" ∷ "_" ∷ "junior" ∷ "_queue" ∷ []))
      ≡ Acl.allowed)
    × (check_resource receiver
          (format ("bob" ∷ "_" ∷ "junior" ∷ []))
          "queue"
          (format ("bob" ∷ "_" ∷ "junior" ∷ "_queue" ∷ []))
        ≡ Acl.allowed)
extended_name_shares_queue_example = extended_name_shares_queue "bob" "junior"

-- Whole numbers in place of `f64`.
abbrev pub whole : Float ℕ
whole = record {
  add = λ a b. a + b;
  sub = λ a b. a - b;
  mul = λ a b. a * b;
  min = λ a b. if leb a b then a else b;
  le = leb;
  one = 1;
  seconds = λ ms. ms / 1000;
}

whole-laws : FloatLaws whole
whole-laws = record { min_le = λ a b h. ground arith; sub_one_le = λ a b h. ground arith }

abbrev pub config : RateLimitConfig ℕ
config = record {
  global_rps = 5;
  global_burst = 10;
  publish_rps = 1;
  publish_burst = 2;
  max_connections_per_ip = 3;
  max_connections_per_cn = 1;
}

abbrev requests : List Request
requests =
    record { cn = "alice"; is_publish = true; now = 1000 }
    ∷ record { cn = "alice"; is_publish = false; now = 90000 }
    ∷ []

checks-new-IsBounded_example : IsBounded whole (checks whole requests (RateLimiter.new config))
checks-new-IsBounded_example = checks-new-IsBounded whole whole-laws requests config refl refl

abbrev limiter : RateLimiter ℕ
limiter = RateLimiter.new config

abbrev history : List Change
history = connects "bob" "ip" ∷ connects "bob" "ip" ∷ releases "bob" "ip" ∷ []

changes-new-WithinLimits_example : WithinLimits (changes history (RateLimiter.new config))
changes-new-WithinLimits_example = changes-new-WithinLimits history config

abbrev monitor : HeartbeatMonitor
monitor = record { heartbeats = ("bob", 1000) ∷ ("eve", 70000) ∷ []; timeout_duration = 60000 }

in_order : 80000 ≤ 90000
in_order = ground arith

is_alive-monitor_task_example :
    is_alive "eve" 90000 (monitor_task 80000 monitor) ≡ is_alive "eve" 90000 monitor
is_alive-monitor_task_example =
    is_alive-monitor_task "eve" 80000 90000 monitor (refl, (refl, tt)) in_order
