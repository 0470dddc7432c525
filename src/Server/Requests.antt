-- ===== src/Server/Requests.antt =====
-- One request of `handle_client` in server/src/server.rs: a handler for each command, which gives the
-- new server and the text of the answer, and the checks in front of them.
use cipher_mq.Common.{
  String, none, some, List, [], ◌∷◌, ◌==◌, if◌then◌else◌, Result, ok, err, format, join,
}
use cipher_mq.Storage.{StorageApi}
use cipher_mq.State.{
  EncryptedInputData, ServerState, declare_queue, declare_exchange, bind_queue, save_public_key,
  get_public_key,
}
use cipher_mq.State.Publish.{publish}
use cipher_mq.State.Deliver.{register_consumer, acknowledge}
use cipher_mq.Heartbeat.{record_heartbeat}
use cipher_mq.Metrics.{bump}
use cipher_mq.Acl.{allowed, denied, check_resource}
use cipher_mq.Server.{Json, Server, Session, Clock, Reply, plain, nothing, written, flushed}

module _ {S F : Type 0} where
  abbrev pub with_state : ServerState S → Server S F → Server S F
  with_state st srv = record srv { state = st }

  abbrev pub on_state : (ServerState S → ServerState S) → Server S F → Server S F
  on_state f srv = record srv { state = f srv.state }

  unfoldable pub count_rate_limited : Server S F → Server S F
  count_rate_limited srv = record srv {
    metrics = record (srv.metrics) {
      requests_rate_limited = bump srv.metrics.requests_rate_limited;
    };
  }

  unfoldable pub count_published : Server S F → Server S F
  count_published srv = record srv {
    metrics = record (srv.metrics) { messages_published = bump srv.metrics.messages_published };
  }

  unfoldable pub handle_declare_queue : Session → String → Server S F → Server S F × String
  handle_declare_queue sess args srv =
      if args == ""
      then (srv, "Missing queue name\n")
      else elim (check_resource sess.role sess.client_id "queue" args) [
        | denied reason ↦ (srv, format ("Access denied: " ∷ reason ∷ "\n" ∷ []))
        | allowed ↦ (on_state (declare_queue args) srv, "Queue declared\n")
      ]

  unfoldable pub handle_declare_exchange : String → Server S F → Server S F × String
  handle_declare_exchange args srv =
      if args == ""
      then (srv, "Missing exchange name\n")
      else (on_state (declare_exchange args) srv, "Exchange declared\n")

  -- On the parts of `splitn(3, ' ')`; fewer than three are refused.
  unfoldable pub handle_bind : Session → List String → Server S F → Server S F × String
  handle_bind sess (queue ∷ exchange ∷ key ∷ _) srv =
      elim (check_resource sess.role sess.client_id "queue" queue) [
        | denied reason ↦ (srv, format ("Access denied: " ∷ reason ∷ "\n" ∷ []))
        | allowed ↦ (on_state (bind_queue queue exchange key) srv, "Queue bound\n")
      ]
  handle_bind sess _ srv = (srv, "Missing parameters\n")

  unfoldable pub handle_consume : Session → String → Server S F → Server S F × Reply
  handle_consume sess args srv =
      if args == ""
      then (srv, plain "Missing queue name\n")
      else let (st, task) = register_consumer args sess.channel srv.state in
        (with_state st srv, record { text = ""; need = nothing; task = task })

  unfoldable pub handle_heartbeat : Session → Clock → Server S F → Server S F × String
  handle_heartbeat sess clock srv = (
    record srv {
      heartbeat_monitor = record_heartbeat sess.client_id clock.now srv.heartbeat_monitor;
    },
    "Heartbeat received\n",
  )

module _ {S F : Type 0} (api : StorageApi S) where
  unfoldable pub handle_ack : Clock → String → Server S F → Server S F × Reply
  handle_ack clock args srv =
      if args == ""
      then (srv, record { text = "Missing message ID\n"; need = written; task = [] })
      else (
        record srv {
          state = acknowledge api args clock.now clock.utc_now srv.state;
          metrics = record (srv.metrics) { messages_acked = bump srv.metrics.messages_acked };
        },
        record { text = format ("ACK confirmed " ∷ args ∷ "\n" ∷ []); need = flushed; task = [] },
      )

  -- A resend is answered, and nothing is sent again.
  unfoldable pub handle_resend : Session → String → Server S F → Server S F × String
  handle_resend sess args srv =
      if args == ""
      then (srv, "Missing message ID\n")
      else let (result, storage) = api.get_client_id_for_message args srv.state.storage in
        (
          with_state (record (srv.state) { storage = storage }) srv,
          elim result [
            | err e ↦ "Error retrieving message metadata\n"
            | ok none ↦ "Message ID not found\n"
            | ok (some target) ↦
                if target == sess.client_id
                then "Resend requested\n"
                else "Unauthorized resend request\n"
          ],
        )

  unfoldable pub handle_register_public_key : Session → String → Server S F → Server S F × String
  handle_register_public_key sess args srv =
      if args == ""
      then (srv, "Missing public key\n")
      else let (result, st) = save_public_key api sess.client_id args srv.state in
        (
          with_state st srv,
          elim result [
            | ok _ ↦ "Public key registered\n"
            | err e ↦ format ("Error: " ∷ e ∷ "\n" ∷ [])
          ],
        )

  unfoldable pub handle_get_public_key : String → Server S F → Server S F × String
  handle_get_public_key args srv =
      if args == ""
      then (srv, "Missing client ID\n")
      else let (result, st) = get_public_key api args srv.state in
        (
          with_state st srv,
          elim result [
            | ok (some key) ↦ format ("Public key: " ∷ key ∷ "\n" ∷ [])
            | ok none ↦ "Public key not found\n"
            | err e ↦ format ("Error: " ∷ e ∷ "\n" ∷ [])
          ],
        )

  -- A publication counts when it succeeds.
  unfoldable pub publish_one :
      Session
      → Clock
      → String
      → String
      → EncryptedInputData
      → Server S F
      → Result String (Unit {0}) × Server S F
  unfolding count_published
  publish_one sess clock exchange key m srv =
      let (result, st) =
        publish api exchange key m sess.client_id clock.now clock.utc_now srv.state in
      (
        result,
        elim result [ ok _ ↦ count_published (with_state st srv) | err _ ↦ with_state st srv ],
      )

  -- The loop over the messages of a batch; a message that fails does not stop it.
  unfoldable pub publish_all :
      Session
      → Clock
      → String
      → String
      → List EncryptedInputData
      → Server S F
      → Server S F × List String
  unfolding publish_one
  publish_all sess clock exchange key [] srv = (srv, [])
  publish_all sess clock exchange key (m ∷ ms) srv =
      let (result, srv₁) = publish_one sess clock exchange key m srv in
      let (srv₂, acks) = publish_all sess clock exchange key ms srv₁ in
      (
        srv₂,
        elim result [
          | ok _ ↦ format ("ACK " ∷ m.message_id ∷ []) ∷ acks
          | err e ↦ format ("Error: " ∷ e ∷ " for message " ∷ m.message_id ∷ []) ∷ acks
        ],
      )

module _ {S F : Type 0} (api : StorageApi S) (json : Json) where
  unfoldable pub handle_publish : Session → Clock → List String → Server S F → Server S F × String
  handle_publish sess clock (exchange ∷ key ∷ text ∷ _) srv = elim (json.parse_message text) [
    | err e ↦ (srv, format ("Invalid message format: " ∷ e ∷ "\n" ∷ []))
    | ok m ↦
        let (result, srv') = publish_one api sess clock exchange key m srv in
        (
          srv',
          elim result [
            | ok _ ↦ format ("ACK " ∷ m.message_id ∷ "\n" ∷ [])
            | err e ↦ format ("Error: " ∷ e ∷ "\n" ∷ [])
          ],
        )
  ]
  handle_publish sess clock _ srv = (srv, "Missing parameters\n")

  unfoldable pub handle_publish_batch :
      Session → Clock → List String → Server S F → Server S F × String
  handle_publish_batch sess clock (exchange ∷ key ∷ text ∷ _) srv = elim (json.parse_batch text) [
    | err e ↦ (srv, format ("Invalid batch format: " ∷ e ∷ "\n" ∷ []))
    | ok ms ↦
        let (srv', acks) = publish_all api sess clock exchange key ms srv in
        (srv', format (join "\n" acks ∷ "\n" ∷ []))
  ]
  handle_publish_batch sess clock _ srv = (srv, "Missing parameters\n")
