-- ===== src/Metrics.antt =====
-- The counters of server/src/metrics.rs, which wrap around as `AtomicU64::fetch_add` does, and the texts that
-- are made of them. The snapshot and the seconds since the start are arguments; `show` writes a number.
use cipher_mq.Common.{ℕ, ◌+◌, ◌%◌, ◌^◌, String, [], ◌∷◌, format}

pub record Metrics : Type 0 where
  pub messages_published : ℕ
  pub messages_acked : ℕ
  pub messages_delivered : ℕ
  pub errors_total : ℕ
  pub connections_total : ℕ
  pub connections_rejected_rate_limit : ℕ
  pub connections_rejected_conn_limit : ℕ
  pub requests_rate_limited : ℕ

abbrev pub u64_mod : ℕ
u64_mod = 2 ^ 64

-- `fetch_add(1)`
unfoldable pub bump : ℕ → ℕ
bump n = (n + 1) % u64_mod

abbrev pub new : Metrics
new = record {
  messages_published = 0;
  messages_acked = 0;
  messages_delivered = 0;
  errors_total = 0;
  connections_total = 0;
  connections_rejected_rate_limit = 0;
  connections_rejected_conn_limit = 0;
  requests_rate_limited = 0;
}

-- Nothing calls `update_snapshot`, so the snapshot of a server is always the first one.
pub record ServerSnapshot : Type 0 where
  pub connected_clients : ℕ
  pub queue_count : ℕ
  pub total_messages : ℕ
  pub consumer_count : ℕ

abbrev pub default_snapshot : ServerSnapshot
default_snapshot = record {
  connected_clients = 0;
  queue_count = 0;
  total_messages = 0;
  consumer_count = 0;
}

module _ (show : ℕ → String) where
  -- The three lines of a metric.
  unfoldable pub metric : String → String → ℕ → String → String
  metric name help value kind = format (
      "# HELP "
      ∷ name
      ∷ " "
      ∷ help
      ∷ "\n# TYPE "
      ∷ name
      ∷ " "
      ∷ kind
      ∷ "\n"
      ∷ name
      ∷ " "
      ∷ show value
      ∷ "\n"
      ∷ [])

  unfoldable pub render_prometheus : ServerSnapshot → ℕ → Metrics → String
  unfolding metric
  render_prometheus s uptime m = format (
      metric "ciphermq_messages_published_total" "Total messages published" m.messages_published
        "counter"
      ∷ metric "ciphermq_messages_acked_total" "Total messages acknowledged" m.messages_acked
          "counter"
      ∷ metric "ciphermq_messages_delivered_total" "Total messages delivered" m.messages_delivered
          "counter"
      ∷ metric "ciphermq_errors_total" "Total server errors" m.errors_total "counter"
      ∷ metric "ciphermq_connections_total" "Accepted client connections" m.connections_total
          "counter"
      ∷ metric "ciphermq_connections_rejected_rate_limit_total" "Connections rejected by rate limit"
          m.connections_rejected_rate_limit "counter"
      ∷ metric "ciphermq_connections_rejected_conn_limit_total"
          "Connections rejected by connection limit" m.connections_rejected_conn_limit "counter"
      ∷ metric "ciphermq_requests_rate_limited_total" "Requests rejected by rate limit"
          m.requests_rate_limited "counter"
      ∷ metric "ciphermq_connected_clients" "Current connected clients" s.connected_clients "gauge"
      ∷ metric "ciphermq_queue_count" "Current queue count" s.queue_count "gauge"
      ∷ metric "ciphermq_messages_in_queues" "Messages currently in queues" s.total_messages "gauge"
      ∷ metric "ciphermq_consumer_count" "Current consumers" s.consumer_count "gauge"
      ∷ metric "ciphermq_uptime_seconds" "Server uptime" uptime "gauge"
      ∷ [])

  unfoldable pub render_status : ServerSnapshot → ℕ → Metrics → String
  render_status s uptime m = format (
      "=== CipherMQ Node Status ===\nConnected clients: "
      ∷ show s.connected_clients
      ∷ "\nQueues:            "
      ∷ show s.queue_count
      ∷ "\nMessages in queues: "
      ∷ show s.total_messages
      ∷ "\nConsumers:          "
      ∷ show s.consumer_count
      ∷ "\nUptime:             "
      ∷ show uptime
      ∷ "s\nPublished:          "
      ∷ show m.messages_published
      ∷ "\nAcknowledged:       "
      ∷ show m.messages_acked
      ∷ "\nRate limited:       "
      ∷ show m.requests_rate_limited
      ∷ "\n"
      ∷ [])
