-- ===== src/Tests/World.antt =====
-- Schedules of the server's tasks (server/src/main.rs and server/src/server.rs).
use cipher_mq.Common.{
  false, ok, ◌+◌, ◌++◌, ℕ, ◌≡◌, refl, String, true, some, List, [], ◌∷◌, length, map, All,
  get_elem?,
}
use cipher_mq.State.{Channel, ServerState, is_closed}
use cipher_mq.State.Publish.{publish, target_queues}
use cipher_mq.State.Publish.Consumers.{waiting_in, repeated}
use cipher_mq.State.Publish.Notified.{hearings, publish_notifies}
use cipher_mq.State.Deliver.{register_consumer}
use cipher_mq.State.Invariant.{IsValid}
use cipher_mq.State.Invariant.Operations.{register_consumer-IsValid}
use cipher_mq.State.Invariant.Run.{run-new-IsValid}
use cipher_mq.Server.Lifecycle.Arrival.{rounds-publish}
use cipher_mq.Acl.{sender, receiver}
use cipher_mq.Server.{Server, Session}
use cipher_mq.Server.Lifecycle.{
  Attempt, succeeds, flush_fails, reads, read_ends, receives, Turn, connect, step, rounds,
}
use cipher_mq.Server.Lifecycle.Drain.{Deliveries, delivering, lines_of, due}
use cipher_mq.Server.World.{
  World, started, welcome, go_on, fail, tick, connects, fails, runs, ticks, Reach, here, next,
}
use cipher_mq.Server.World.Invariant.{Sound, Reach-Sound}
use cipher_mq.Tests.Broker.{api, letter, size, after, bound, setup}
use cipher_mq.Tests.Rules.{acl, whole, config}
use cipher_mq.Tests.Connections.{json, server, session, clock}

abbrev first : World ℕ ℕ
first = started 0 size 60 config

-- A handshake that fails, a receiver and a sender, a request of each, the monitor, and the end of the receiver.
abbrev receives_from : Session
receives_from = record { client_id = "r"; ip = "ip"; role = receiver; channel = 0 }

abbrev sends_to : Session
sends_to = record { client_id = "s"; ip = "ip"; role = sender; channel = 1 }

abbrev failed : World ℕ ℕ
failed = fail first

abbrev with_receiver : World ℕ ℕ
with_receiver = welcome "r" (connect acl "r" "ip" clock failed.server) failed

abbrev with_both : World ℕ ℕ
with_both = welcome "s" (connect acl "s" "ip" clock with_receiver.server) with_receiver

abbrev consuming : World ℕ ℕ
consuming =
    go_on receives_from [] (sends_to ∷ [])
      (step api json whole receives_from clock (reads "consume inbox\n" succeeds) with_both.server)
      with_both

abbrev one_left : World ℕ ℕ
one_left =
    go_on receives_from [] (sends_to ∷ [])
      (step api json whole receives_from clock read_ends consuming.server) consuming

scheduled : Reach api json whole acl first (tick 6000 one_left)
unfolding welcome connect cipher_mq.Acl.resolve_role cipher_mq.RateLimiter.check_connection
    cipher_mq.Server.Lifecycle.count_out cipher_mq.RateLimiter.new cipher_mq.Common.get
    cipher_mq.Common.insert cipher_mq.State.decrement_client_count
    cipher_mq.State.increment_client_count cipher_mq.State.new go_on step cipher_mq.Common.splitn
    cipher_mq.Common.trim
scheduled =
    next
      (next
        (next
          (next (next (next here (fails refl)) (connects "r" "ip" clock refl))
            (connects "s" "ip" clock refl))
          (runs [] (sends_to ∷ []) receives_from clock (reads "consume inbox\n" succeeds) refl
            refl))
        (runs [] (sends_to ∷ []) receives_from clock read_ends refl refl))
      (ticks 6000 refl)

Reach-Sound_example : Sound (tick 6000 one_left)
Reach-Sound_example = Reach-Sound api json whole acl 0 size 60 config (tick 6000 one_left) scheduled

one_is_left : one_left.live ≡ sends_to ∷ []
unfolding go_on step
one_is_left = refl

-- A channel with a message that was published and one that nobody knows.
abbrev pub full : Channel
full = record { is_open = true; waiting = ("m1", letter "m1") ∷ ("m0", letter "m0") ∷ [] }

abbrev pub holding : Server ℕ ℕ
holding = record server { state = record after { channels = full ∷ [] } }

abbrev pub prompt : ℕ → Attempt
prompt _ = succeeds

abbrev pub deliveries : Deliveries
deliveries = (clock, prompt) ∷ (clock, prompt) ∷ []

-- A broker with a consumer of `inbox`, and what a publication does there.
abbrev ready : ServerState ℕ
ready = record bound { channels = record { is_open = true; waiting = [] } ∷ [] }

abbrev listening : ServerState ℕ
listening = (register_consumer "inbox" 0 ready).0

abbrev notified : ServerState ℕ
notified = (publish api "mail" "news" (letter "m1") "alice" 5 "t5" listening).1

listening-IsValid : IsValid listening
listening-IsValid =
    let v = run-new-IsValid api 0 size setup in
    register_consumer-IsValid "inbox" 0 ready (record { queues = v.queues; bindings = v.bindings })

publish_succeeds :
    publish api "mail" "news" (letter "m1") "alice" 5 "t5" listening ≡ (ok tt, notified)
unfolding publish cipher_mq.Common.get register_consumer cipher_mq.State.Invariant.Run.run
    cipher_mq.State.Invariant.Run.perform cipher_mq.State.bind_queue
    cipher_mq.State.declare_exchange cipher_mq.Common.or_insert cipher_mq.State.new
    cipher_mq.Common.insert
publish_succeeds = refl

hears_once : hearings listening (target_queues listening "mail" "news") 0 ≡ 1
unfolding hearings target_queues cipher_mq.Common.get register_consumer
    cipher_mq.State.Invariant.Run.run cipher_mq.State.Invariant.Run.perform
    cipher_mq.State.bind_queue cipher_mq.State.declare_exchange cipher_mq.Common.or_insert
    cipher_mq.State.new cipher_mq.Common.insert cipher_mq.Common.modify
hears_once = refl

publish_notifies_example :
    (waiting_in notified.channels 0
      ≡ waiting_in listening.channels 0
        ++ repeated
            (hearings listening (target_queues listening "mail" "news") 0)
            ("m1", letter "m1"))
    × (is_closed notified.channels 0 ≡ is_closed listening.channels 0)
publish_notifies_example =
    publish_notifies api "mail" "news" (letter "m1") "alice" 5 "t5" listening notified 0
      publish_succeeds

abbrev serving_listeners : Server ℕ ℕ
serving_listeners = record server { state = listening }

is_listening : is_closed listening.channels 0 ≡ false
unfolding register_consumer
is_listening = refl

abbrev one_prompt : Deliveries
one_prompt = (clock, prompt) ∷ []

one_delivery :
    length one_prompt
    ≡ length (waiting_in listening.channels 0)
      + hearings listening (target_queues listening "mail" "news") 0
unfolding register_consumer hearings target_queues cipher_mq.Common.get
    cipher_mq.State.Invariant.Run.run cipher_mq.State.Invariant.Run.perform
    cipher_mq.State.bind_queue cipher_mq.State.declare_exchange cipher_mq.Common.or_insert
    cipher_mq.State.new cipher_mq.Common.insert cipher_mq.Common.modify
one_delivery = refl

rounds-publish_example :
    (rounds api json whole session
      (map delivering one_prompt)
      (record serving_listeners { state = notified })).output
    ≡ lines_of json (
        due api json whole
          (record serving_listeners { state = notified })
          (waiting_in listening.channels 0)
        ++ repeated
            (hearings listening (target_queues listening "mail" "news") 0)
            ("m1", letter "m1"))
rounds-publish_example =
    rounds-publish api json whole "mail" "news" (letter "m1") "alice" 5 "t5" serving_listeners
      notified session one_prompt listening-IsValid publish_succeeds is_listening one_delivery
      (refl, tt)
