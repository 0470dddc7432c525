-- ===== src/State/Cleanup/Expiry.antt =====
-- The clean-up of messages that were delivered long ago and never acknowledged.
use cipher_mq.Common.{
  ℕ, ◌≡◌, refl, ◌∙◌, inl, inr, String, Bool, false, none, some, List, [], ◌∷◌, ◌==◌, Table,
  if◌then◌else◌, count, contains, Distinct, get, keys, modify, arith, eq_iff, get-remove, passes,
  contains-keys_where, get-modify, Option-cases, Option,
}
use cipher_mq.State.{Entry, MessageStatus, ServerState, without, remove_from_queues, set_or_empty}
use cipher_mq.State.Cleanup.{
  is_expired, expired_messages, drop_message, drop_messages, cleanup_old_messages,
}

-- The status is that of a message to be dropped.
abbrev pub expired_status : ℕ → ℕ → Option MessageStatus → Bool
expired_status now max_age = passes (is_expired now max_age)

-- How often a queue that may not exist holds the message.
abbrev pub copies : String → Option (List Entry) → ℕ
copies id none = 0
copies id (some entries) = count (λ e. e.0 == id) entries

copies-without :
    (id j : String) (entries : List Entry)
    → (j == id) ≡ false
    → count (λ e. e.0 == id) (without j entries) ≡ count (λ e. e.0 == id) entries
copies-without id j [] h = refl
copies-without id j (e ∷ entries) h =
    ground (arith, eq_iff e.0 j, eq_iff e.0 id, eq_iff j id, copies-without id j entries h)

copies-remove_from_queues :
    (id j q : String) (names : List String) (qs : Table (List Entry))
    → (j == id) ≡ false
    → copies id (get q (remove_from_queues j names qs)) ≡ copies id (get q qs)
unfolding remove_from_queues
copies-remove_from_queues id j q [] qs h = refl
copies-remove_from_queues id j q (name ∷ names) qs h =
    copies-remove_from_queues id j q names (modify name (without j) qs) h
    ∙ elim (Option-cases (get q qs)) [
      | inl missing ↦ ground (arith, get-modify q name (without j) qs)
      | inr (entries, found) ↦
          ground (arith, get-modify q name (without j) qs, copies-without id j entries h)
    ]

module _ {S : Type 0} where
  status-drop_messages :
      (id : String) (ids : List String) (st : ServerState S)
      → get id (drop_messages ids st).message_status
        ≡ (if contains id ids then none else get id st.message_status)
  unfolding drop_messages drop_message
  status-drop_messages id [] st = refl
  status-drop_messages id (j ∷ ids) st =
      ground
        (arith, status-drop_messages id ids (drop_message j st), get-remove id j st.message_status)

  copies-drop_messages :
      (id q : String) (ids : List String) (st : ServerState S)
      → contains id ids ≡ false
      → copies id (get q (drop_messages ids st).queues) ≡ copies id (get q st.queues)
  unfolding drop_messages drop_message
  copies-drop_messages id q [] st h = refl
  copies-drop_messages id q (j ∷ ids) st h =
      copies-drop_messages id q ids (drop_message j st) (ground arith)
      ∙ copies-remove_from_queues id j q (set_or_empty (get j st.message_queues)) st.queues
          (ground arith)

  -- With one status for each message, the clean-up forgets exactly the messages that were delivered
  -- more than `max_age` ago and are not acknowledged; every other message keeps its status.
  pub cleanup_old_messages-selects :
      (now max_age : ℕ) (id : String) (st : ServerState S)
      → Distinct (keys st.message_status)
      → get id (cleanup_old_messages now max_age st).message_status ≡ (
          if expired_status now max_age (get id st.message_status)
          then none
          else get id st.message_status)
  unfolding cleanup_old_messages expired_messages
  cleanup_old_messages-selects now max_age id st d =
      rw (← contains-keys_where (is_expired now max_age) id st.message_status d)
        (status-drop_messages id (expired_messages now max_age st.message_status) st)

  -- With one status for each message, the clean-up leaves a message that has not expired as many
  -- copies in every queue as it had.
  pub cleanup_old_messages-keeps :
      (now max_age : ℕ) (id q : String) (st : ServerState S)
      → Distinct (keys st.message_status)
      → expired_status now max_age (get id st.message_status) ≡ false
      → copies id (get q (cleanup_old_messages now max_age st).queues) ≡ copies id (get q st.queues)
  unfolding cleanup_old_messages expired_messages
  cleanup_old_messages-keeps now max_age id q st d kept =
      copies-drop_messages id q (expired_messages now max_age st.message_status) st
        (contains-keys_where (is_expired now max_age) id st.message_status d ∙ kept)
