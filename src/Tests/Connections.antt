-- ===== src/Tests/Connections.antt =====
-- Runs of connections (server/src/server.rs).
use mathlib.Core.Option
use cipher_mq.Common.{
  ℕ, ◌+◌, ◌%◌, ◌-◌, ◌<◌, ◌≡◌, ◌≢◌, ◌&&◌, ◌==◌, get, contains_key, ◌⊎◌, refl, String, Bool, true,
  false, Option, none, some, List, [], ◌∷◌, splitn, trim, if◌then◌else◌, Result, ok, err, arith,
}
use cipher_mq.State.{
  EncryptedInputData, Entry, ServerState, sent, usize_mod, decrement_client_count,
}
use cipher_mq.State.Publish.{target_queues, distribute}
use cipher_mq.State.Publish.Queues.{push_bounded}
use cipher_mq.State.Publish.Delivery.{is_bound}
use cipher_mq.State.Overlap.{
  Waiting, begin_publish, finish_publish, waiting_for, Concurrent, calls, begins, resumes, Reach,
  here, next, idle,
}
use cipher_mq.State.Overlap.Races.{Reach-IsValid, overlapping_duplicates}
use cipher_mq.State.Invariant.Run.{run, declares_queue, declares_exchange, binds}
use cipher_mq.State.Invariant.{IsValid}
use cipher_mq.State.Invariant.Run.{run-new-IsValid}
use cipher_mq.Heartbeat
use cipher_mq.Metrics
use cipher_mq.RateLimiter
use cipher_mq.RateLimiter.{check, is_allowed, count_of}
use cipher_mq.Acl.{sender, allowed, check_command}
use cipher_mq.Server.{Json, Server, Session, Clock}
use cipher_mq.Server.Dispatch.{part, is_publish, process_request}
use cipher_mq.Server.Safety.{process_request-is_guarded, process_request-routes}
use cipher_mq.Server.Lifecycle.{
  Attempt, flush_fails, succeeds, Event, reads, read_ends, connect, rounds, deliver,
}
use cipher_mq.Server.Lifecycle.Limits.{rounds-connections}
use cipher_mq.Server.Lifecycle.Delivery.{counts_as_delivered, deliver_lem}
use cipher_mq.Tests.Broker.{valid, api, letter, bound, after, size}
use cipher_mq.Tests.Rules.{acl, whole, config}

-- A parser that knows one message.
abbrev pub json : Json
json = record {
  parse_message = λ text. ok (letter "m1");
  parse_batch = λ text. ok (letter "m1" ∷ letter "m2" ∷ []);
  show_message = λ m. m.ciphertext;
}

abbrev pub server : Server ℕ ℕ
server = record {
  state = bound;
  heartbeat_monitor = Heartbeat.new 60;
  metrics = Metrics.new;
  rate_limiter = RateLimiter.new config;
}

abbrev pub session : Session
session = record { client_id = "s"; ip = "ip"; role = sender; channel = 0 }

abbrev pub clock : Clock
clock = record { now = 5000; utc_now = "t5" }

abbrev request : String
request = "publish mail news {}\n"

process_request-is_guarded_example :
    let command = part 0 (splitn 2 (trim request)) in
    ((process_request api json whole session clock request server).0.state ≡ server.state)
    ⊎ (check_command session.role command ≡ allowed)
      × (is_allowed
            (check whole session.client_id (is_publish command) clock.now server.rate_limiter).0
          ≡ true)
process_request-is_guarded_example =
    process_request-is_guarded api json whole session clock request server

process_request-routes_example :
    let st' = (process_request api json whole session clock request server).0.state in
    (st'.bindings ≡ server.state.bindings) × (st'.exchanges ≡ server.state.exchanges)
process_request-routes_example =
    process_request-routes api json whole session refl clock request server

abbrev events : List (Clock × Event)
events = (clock, reads request succeeds) ∷ (clock, read_ends) ∷ []

abbrev accepted : Session
accepted = record { client_id = "s"; ip = "ip"; role = sender; channel = 0 }

is_accepted : (connect acl "s" "ip" clock server).0 ≡ some accepted
unfolding connect cipher_mq.Acl.resolve_role RateLimiter.check_connection RateLimiter.new
    cipher_mq.Common.get cipher_mq.State.Invariant.Run.run cipher_mq.State.Invariant.Run.perform
    cipher_mq.State.bind_queue cipher_mq.State.declare_exchange cipher_mq.State.declare_queue
    cipher_mq.Common.or_insert cipher_mq.State.new cipher_mq.Common.insert
is_accepted = refl

count_is_zero : server.state.connected_clients ≡ 0
unfolding cipher_mq.State.Invariant.Run.run cipher_mq.State.Invariant.Run.perform
    cipher_mq.State.bind_queue cipher_mq.Common.get cipher_mq.State.declare_exchange
    cipher_mq.State.declare_queue cipher_mq.Common.or_insert cipher_mq.State.new
    cipher_mq.Common.insert
count_is_zero = refl

count_is_small : server.state.connected_clients < usize_mod
count_is_small = ground (arith, count_is_zero)

rounds-connections_example :
    let c = server.rate_limiter.connections in
    let c' =
      (rounds api json whole accepted events (connect acl "s" "ip" clock server).1.server
        ).server.rate_limiter.connections in
    (count_of "s" c'.by_cn ≡ count_of "s" c.by_cn + 1)
    × (count_of "ip" c'.by_ip ≡ count_of "ip" c.by_ip + 1)
rounds-connections_example =
    rounds-connections api json whole acl "s" "ip" clock server accepted events is_accepted

abbrev serving : Server ℕ ℕ
serving = record server { state = after }

-- A stream whose every flush fails.
abbrev stuck : ℕ → Attempt
stuck _ = flush_fails

has_status : get "m1" serving.state.message_status ≡ some (sent 5)
unfolding cipher_mq.Common.get cipher_mq.State.Publish.publish cipher_mq.State.Invariant.Run.run
    cipher_mq.State.Invariant.Run.perform cipher_mq.State.bind_queue
    cipher_mq.State.declare_exchange cipher_mq.State.declare_queue cipher_mq.Common.or_insert
    cipher_mq.State.new cipher_mq.Common.insert cipher_mq.State.Publish.notify
    cipher_mq.State.Publish.enqueue
has_status = refl

deliver_lem_example :
    let st = serving.state in
    let turn = deliver api json clock ("m1", letter "m1") stuck serving in
    let st' = turn.server.state in
    (turn.goes_on ≡ counts_as_delivered stuck)
    × (get "m1" st'.message_status
        ≡ some (
            if counts_as_delivered stuck && true
            then record (sent 5) { delivered_time = some clock.now }
            else sent 5))
    × ((id : String) → ("m1" == id) ≡ false → get id st'.message_status ≡ get id st.message_status)
    × (st'.storage ≡ (
        if counts_as_delivered stuck && true
        then api.update_delivered_time_async "m1" clock.utc_now st.storage
        else st.storage))
    × (st'.queues ≡ st.queues)
    × (st'.connected_clients ≡ (
        if counts_as_delivered stuck
        then st.connected_clients
        else (st.connected_clients + usize_mod - 1) % usize_mod))
deliver_lem_example =
    deliver_lem api json clock ("m1", letter "m1") stuck serving (sent 5) has_status refl

-- A connection that fails its handshake is counted out without having been counted in.
handshake_failure : (decrement_client_count server.state).connected_clients ≡ usize_mod - 1
unfolding decrement_client_count cipher_mq.State.Invariant.Run.run
    cipher_mq.State.Invariant.Run.perform cipher_mq.State.bind_queue cipher_mq.Common.get
    cipher_mq.State.declare_exchange cipher_mq.State.declare_queue cipher_mq.Common.or_insert
    cipher_mq.State.new cipher_mq.Common.insert
handshake_failure = refl

-- Two requests that are read at once are taken for one.
joined_requests :
    (process_request api json whole session clock "ack m1\nack m2\n" server).1.text
    ≡ "ACK confirmed m1\nack m2\n"
unfolding process_request splitn trim cipher_mq.Common.get RateLimiter.new
joined_requests = refl

-- Two publications of one message that overlap.
abbrev first_begun : ServerState ℕ
first_begun = (begin_publish api "mail" "news" (letter "m1") "alice" 5 "t5" bound).1

abbrev second_begun : ServerState ℕ
second_begun = (begin_publish api "mail" "news" (letter "m1") "carol" 6 "t6" first_begun).1

abbrev first_wait : Waiting
first_wait = waiting_for api "mail" "news" (letter "m1") "alice" 5 "t5" bound

abbrev second_wait : Waiting
second_wait = waiting_for api "mail" "news" (letter "m1") "carol" 6 "t6" first_begun

m1_is_unknown : contains_key "m1" bound.message_status ≡ false
unfolding cipher_mq.Common.get run cipher_mq.State.Invariant.Run.perform cipher_mq.State.bind_queue
    cipher_mq.State.declare_exchange cipher_mq.State.declare_queue cipher_mq.Common.or_insert
    cipher_mq.State.new cipher_mq.Common.insert
m1_is_unknown = refl

targets_are : target_queues bound "mail" "news" ≡ "inbox" ∷ []
unfolding target_queues cipher_mq.Common.get run cipher_mq.State.Invariant.Run.perform
    cipher_mq.State.bind_queue cipher_mq.State.declare_exchange cipher_mq.State.declare_queue
    cipher_mq.Common.or_insert cipher_mq.State.new cipher_mq.Common.insert
targets_are = refl

is_target : is_bound bound "inbox" "mail" "news" ≡ true
unfolding cipher_mq.Common.get run cipher_mq.State.Invariant.Run.perform cipher_mq.State.bind_queue
    cipher_mq.State.declare_exchange cipher_mq.State.declare_queue cipher_mq.Common.or_insert
    cipher_mq.State.new cipher_mq.Common.insert
is_target = refl

overlapping_duplicates_example :
    let (published₁, st₃) = finish_publish first_wait second_begun in
    let (published₂, st₄) = finish_publish second_wait st₃ in
    ((begin_publish api "mail" "news" (letter "m1") "alice" 5 "t5" bound).0 ≡ ok first_wait)
    × ((begin_publish api "mail" "news" (letter "m1") "carol" 6 "t6" first_begun).0
        ≡ ok second_wait)
    × (published₁ ≡ ok tt)
    × (published₂ ≡ ok tt)
    × ((q : String)
        → get q st₄.queues ≡ (
            if is_bound bound q "mail" "news"
            then Option.map
                (λ queue.
                  push_bounded bound.max_queue_size
                    ("m1", letter "m1")
                    (push_bounded bound.max_queue_size ("m1", letter "m1") queue))
                (get q bound.queues)
            else get q bound.queues))
overlapping_duplicates_example =
    overlapping_duplicates api "mail" "news" (letter "m1") (letter "m1") "alice" "carol" 5 6 "t5"
      "t6" bound "inbox" valid refl m1_is_unknown is_target refl refl

abbrev waiting_both : Concurrent ℕ
waiting_both = record { state = second_begun; waiting = first_wait ∷ second_wait ∷ [] }

abbrev resumed : Concurrent ℕ
resumed = record { state = (finish_publish second_wait second_begun).1; waiting = first_wait ∷ [] }

set_up : Reach api (idle 0 size) (record { state = bound; waiting = [] })
unfolding run
set_up =
    next
      (next
        (next (next here (calls (declares_queue "inbox") refl))
          (calls (declares_queue "copy") refl))
        (calls (declares_exchange "mail") refl))
      (calls (binds "inbox" "mail" "news") refl)

-- The second publication overtakes the first.
overtaken : Reach api (idle 0 size) resumed
unfolding begin_publish cipher_mq.Common.get run cipher_mq.State.Invariant.Run.perform
    cipher_mq.State.bind_queue cipher_mq.State.declare_exchange cipher_mq.State.declare_queue
    cipher_mq.Common.or_insert cipher_mq.State.new cipher_mq.Common.insert
overtaken =
    next
      (next (next set_up (begins "mail" "news" (letter "m1") "alice" 5 "t5" refl))
        (begins "mail" "news" (letter "m1") "carol" 6 "t6" refl))
      (resumes (first_wait ∷ []) [] second_wait refl refl)

Reach-IsValid_example : IsValid resumed.state
Reach-IsValid_example = Reach-IsValid api 0 size resumed overtaken
