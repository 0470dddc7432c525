-- ===== src/Server/Lifecycle/Drain.antt =====
-- Progress of `handle_client` in server/src/server.rs: rounds that find the connection's channel empty it.
use cipher_mq.Common.{
  ℕ, ◌≡◌, ◌∙◌, refl, inl, inr, String, Bool, true, some, List, [], ◌∷◌, map, if◌then◌else◌, length,
  retain, retain_cong, All, get_elem?, set, get-modify, arith, Bool-cases,
}
use cipher_mq.Storage.{StorageApi}
use cipher_mq.State.{Entry, Channel, ServerState, delivered}
use cipher_mq.State.Deliver.{is_deliverable}
use cipher_mq.State.Deliver.Pending.{get_elem?-set}
use cipher_mq.RateLimiter.{Float}
use cipher_mq.Server.{Json, Server, Session, Clock}
use cipher_mq.Server.Lifecycle.{
  message_line, Attempt, succeeds, Event, receives, send_retrying, max_retries, recv,
  mark_delivered, conclude, deliver, step, rounds,
}
use cipher_mq.Server.World.Owners.Rounds.{mark_delivered-channels}

-- The moments of deliveries, and the fates of their attempts.
abbrev pub Deliveries : Type 0
Deliveries = List (Clock × (ℕ → Attempt))

abbrev pub delivering : Clock × (ℕ → Attempt) → Clock × Event
delivering d = (d.0, receives d.1)

-- The first attempt of a delivery succeeds.
abbrev pub IsPrompt : Clock × (ℕ → Attempt) → Type 0
IsPrompt d = d.1 0 ≡ succeeds

abbrev pub lines_of : Json → List Entry → List String
lines_of json es = map (λ e. message_line e.0 (json.show_message e.1)) es

module _ {S : Type 0} (api : StorageApi S) where
  is_deliverable-mark_delivered :
      (id other : String) (clock : Clock) (st : ServerState S)
      → is_deliverable (mark_delivered api id clock st).message_status other
        ≡ is_deliverable st.message_status other
  unfolding mark_delivered
  is_deliverable-mark_delivered id other clock st =
      ground (arith, get-modify other id (delivered clock.now) st.message_status)

module _ {S F : Type 0} (api : StorageApi S) (json : Json) where
  -- What a prompt delivery does.
  deliver-IsPrompt :
      (clock : Clock) (e : Entry) (stream : ℕ → Attempt) (srv : Server S F)
      → stream 0 ≡ succeeds
      → let turn = deliver api json clock e stream srv in
        (turn.goes_on ≡ true)
        × (turn.output
            ≡ lines_of json (if is_deliverable srv.state.message_status e.0 then e ∷ [] else []))
        × (turn.server.state.channels ≡ srv.state.channels)
        × ((id : String)
            → is_deliverable turn.server.state.message_status id
              ≡ is_deliverable srv.state.message_status id)
  unfolding deliver conclude send_retrying cipher_mq.Server.Lifecycle.copies
  deliver-IsPrompt clock e stream srv prompt =
      let once = mark_delivered api e.0 clock srv.state in
      elim (Bool-cases (is_deliverable srv.state.message_status e.0)) [
        | inl due ↦
            rw (due, deliver, prompt)
              (
                refl,
                refl,
                mark_delivered-channels api e.0 clock once
                    ∙ mark_delivered-channels api e.0 clock srv.state,
                λ id.
                    is_deliverable-mark_delivered api e.0 id clock once
                    ∙ is_deliverable-mark_delivered api e.0 id clock srv.state,
              )
        | inr done ↦ rw (done, deliver) (refl, refl, refl, λ id. refl)
      ]

module _ {S F : Type 0} (api : StorageApi S) (json : Json) (float : Float F) where
  abbrev pub due : Server S F → List Entry → List Entry
  due srv es = retain (λ e. is_deliverable srv.state.message_status e.0) es

  -- The first message of the channel.
  step-receives :
      (sess : Session) (clock : Clock) (stream : ℕ → Attempt) (srv : Server S F) (b : Bool)
      (e : Entry) (es : List Entry)
      → get_elem? srv.state.channels sess.channel ≡ some (record { is_open = b; waiting = e ∷ es })
      → step api json float sess clock (receives stream) srv
        ≡ deliver api json clock e stream (record srv {
          state = record (srv.state) {
            channels = set srv.state.channels sess.channel (record { is_open = b; waiting = es });
          };
        })
  unfolding step recv
  step-receives sess clock stream srv b e es found = rw (step, recv, found) refl

  drained :
      (sess : Session) (b : Bool) (es : List Entry) (ds : Deliveries) (srv : Server S F)
      → get_elem? srv.state.channels sess.channel ≡ some (record { is_open = b; waiting = es })
      → length ds ≡ length es
      → All IsPrompt ds
      → let turn = rounds api json float sess (map delivering ds) srv in
        (turn.goes_on ≡ true)
        × (turn.output ≡ lines_of json (due srv es))
        × (get_elem? turn.server.state.channels sess.channel
            ≡ some (record { is_open = b; waiting = [] }))
  unfolding rounds
  drained sess b [] [] srv found n prompt = (refl, refl, found)
  drained sess b [] (d ∷ ds) srv found n prompt = absurd (omega (arith, n))
  drained sess b (e ∷ es) [] srv found n prompt = absurd (omega (arith, n))
  drained sess b (e ∷ es) (d ∷ ds) srv found n prompt =
      let rest : Channel = record { is_open = b; waiting = es } in
      let taken : Server S F = record srv {
        state = record (srv.state) { channels = set srv.state.channels sess.channel rest };
      } in
      let turn = deliver api json d.0 e d.1 taken in
      let (goes_on, line, channels, same) = deliver-IsPrompt api json d.0 e d.1 taken prompt.0 in
      let stays : get_elem? turn.server.state.channels sess.channel ≡ some rest = ground (
        arith,
        channels,
        get_elem?-set srv.state.channels sess.channel sess.channel
            (record { is_open = b; waiting = e ∷ es }) rest found,
      ) in
      let ih = drained sess b es ds turn.server stays (omega (arith, n)) prompt.1 in
      rw (step-receives sess d.0 d.1 srv b e es found) (
        rw goes_on (
          ih.0,
          ground (
            arith,
            line,
            ih.1,
            retain_cong (λ x. is_deliverable turn.server.state.message_status x.0)
                (λ x. is_deliverable srv.state.message_status x.0) es (λ x. same x.0),
          ),
          ih.2,
        ))

  -- A connection empties its channel: as many deliveries as there are messages in it, each of which succeeds at
  -- its first attempt, write the lines of the messages that are known and not acknowledged, once each and in
  -- the order of the channel, and leave the channel empty and the connection alive.
  pub rounds-delivering :
      (sess : Session) (c : Channel) (ds : Deliveries) (srv : Server S F)
      → get_elem? srv.state.channels sess.channel ≡ some c
      → length ds ≡ length c.waiting
      → All IsPrompt ds
      → let turn = rounds api json float sess (map delivering ds) srv in
        (turn.goes_on ≡ true)
        × (turn.output ≡ lines_of json (due srv c.waiting))
        × (get_elem? turn.server.state.channels sess.channel ≡ some (record c { waiting = [] }))
  rounds-delivering sess c ds srv found n prompt =
      drained sess c.is_open c.waiting ds srv found n prompt
