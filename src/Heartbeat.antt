-- ===== src/Heartbeat.antt =====
-- `HeartbeatMonitor` of server/src/main.rs. Times are in milliseconds; `monitor_task` is a round of
-- its loop.
use cipher_mq.Common.{
  ℕ, ◌-◌, ◌*◌, ◌≤◌, ◌≡◌, refl, inl, inr, String, Bool, false, none, some, [], ◌==◌, ltb,
  if◌then◌else◌, length, count, Distinct, Table, get, insert, remove, keys, keys_where, remove_all,
  passes, arith, get-insert, get-remove_all, contains-keys_where, Option-cases,
}

pub record HeartbeatMonitor : Type 0 where
  pub heartbeats : Table ℕ
  pub timeout_duration : ℕ

unfoldable pub new : ℕ → HeartbeatMonitor
new timeout_seconds = record { heartbeats = []; timeout_duration = timeout_seconds * 1000 }

unfoldable pub record_heartbeat : String → ℕ → HeartbeatMonitor → HeartbeatMonitor
record_heartbeat client_id now m = record m { heartbeats = insert client_id now m.heartbeats }

unfoldable pub is_alive : String → ℕ → HeartbeatMonitor → Bool
is_alive client_id now m = elim (get client_id m.heartbeats) [
  | none ↦ false
  | some last ↦ ltb (now - last) m.timeout_duration
]

unfoldable pub remove_client : String → HeartbeatMonitor → HeartbeatMonitor
remove_client client_id m = record m { heartbeats = remove client_id m.heartbeats }

abbrev pub is_timed_out : ℕ → ℕ → ℕ → Bool
is_timed_out now timeout last = ltb timeout (now - last)

unfoldable pub monitor_task : ℕ → HeartbeatMonitor → HeartbeatMonitor
monitor_task now m = record m {
  heartbeats =
      remove_all (keys_where (is_timed_out now m.timeout_duration) m.heartbeats) m.heartbeats;
}

-- The number of clients, and of those that are alive.
unfoldable pub get_stats : ℕ → HeartbeatMonitor → ℕ × ℕ
get_stats now m =
    (length m.heartbeats, count (λ e. ltb (now - e.1) m.timeout_duration) m.heartbeats)

-- A round keeps a client's heartbeat exactly where it is no older than the timeout, where each client
-- has one heartbeat.
pub get-monitor_task :
    (client_id : String) (now : ℕ) (m : HeartbeatMonitor)
    → Distinct (keys m.heartbeats)
    → get client_id (monitor_task now m).heartbeats ≡ (
        if passes (is_timed_out now m.timeout_duration) (get client_id m.heartbeats)
        then none
        else get client_id m.heartbeats)
unfolding monitor_task
get-monitor_task client_id now m d = ground (
  arith,
  get-remove_all client_id (keys_where (is_timed_out now m.timeout_duration) m.heartbeats)
      m.heartbeats,
  contains-keys_where (is_timed_out now m.timeout_duration) client_id m.heartbeats d,
)

timeout_duration-monitor_task :
    (now : ℕ) (m : HeartbeatMonitor) → (monitor_task now m).timeout_duration ≡ m.timeout_duration
unfolding monitor_task
timeout_duration-monitor_task now m = refl

-- Where each client has one heartbeat, a round removes no client that is alive and revives none: it
-- changes no answer of `is_alive`, at the time of the round or later.
pub is_alive-monitor_task :
    (client_id : String) (now later : ℕ) (m : HeartbeatMonitor)
    → Distinct (keys m.heartbeats)
    → now ≤ later
    → is_alive client_id later (monitor_task now m) ≡ is_alive client_id later m
unfolding is_alive
is_alive-monitor_task client_id now later m d h = elim (Option-cases (get client_id m.heartbeats)) [
  | inl missing ↦
      ground (arith, get-monitor_task client_id now m d, timeout_duration-monitor_task now m)
  | inr (last, found) ↦
      ground (arith, get-monitor_task client_id now m d, timeout_duration-monitor_task now m)
]

-- A heartbeat makes its client alive until just before the timeout has passed, and no longer, and
-- changes nothing for other clients.
pub is_alive-record_heartbeat :
    (client_id other : String) (time now : ℕ) (m : HeartbeatMonitor)
    → is_alive other now (record_heartbeat client_id time m)
      ≡ (if client_id == other then ltb (now - time) m.timeout_duration else is_alive other now m)
unfolding is_alive record_heartbeat
is_alive-record_heartbeat client_id other time now m =
    ground (arith, get-insert other client_id time m.heartbeats)
