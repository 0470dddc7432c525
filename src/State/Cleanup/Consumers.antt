-- ===== src/State/Cleanup/Consumers.antt =====
-- The clean-up of dead consumers.
use cipher_mq.Common.{
  ℕ, ◌≡◌, refl, ap, String, none, some, List, [], ◌∷◌, Table, if◌then◌else◌, Distinct, get, keys,
  arith, get-remove_all, contains-keys_where, Option,
}
use cipher_mq.State.{Channel, ServerState}
use cipher_mq.State.Cleanup.{
  open_senders, retain_open, is_empty, empty_queues, cleanup_dead_consumers,
}

get-retain_open :
    (chs : List Channel) (q : String) (m : Table (List ℕ))
    → get q (retain_open chs m)
      ≡ (elim (get q m) [ none ↦ none | some senders ↦ some (open_senders chs senders) ])
unfolding retain_open get
get-retain_open chs q [] = refl
get-retain_open chs q ((name, senders) ∷ m) = ground (arith, get-retain_open chs q m)

keys-retain_open : (chs : List Channel) (m : Table (List ℕ)) → keys (retain_open chs m) ≡ keys m
unfolding retain_open
keys-retain_open chs [] = refl
keys-retain_open chs ((name, senders) ∷ m) = ap (◌∷◌ name) (keys-retain_open chs m)

-- The open senders of a queue, or nothing where none is left.
abbrev pub kept_senders : List Channel → Option (List ℕ) → Option (List ℕ)
kept_senders chs none = none
kept_senders chs (some senders) =
    if is_empty (open_senders chs senders) then none else some (open_senders chs senders)

module _ {S : Type 0} where
  -- With one list for each queue, the clean-up leaves each queue the senders whose channel is open,
  -- in their order, and has no entry for a queue that is left with none.
  pub get-cleanup_dead_consumers :
      (q : String) (st : ServerState S)
      → Distinct (keys st.consumers)
      → get q (cleanup_dead_consumers st).consumers ≡ kept_senders st.channels (get q st.consumers)
  unfolding cleanup_dead_consumers empty_queues
  get-cleanup_dead_consumers q st d =
      let kept = retain_open st.channels st.consumers in
      let d' : Distinct (keys kept) = rw (keys-retain_open st.channels st.consumers) d in
      ground (
        arith,
        get-remove_all q (empty_queues kept) kept,
        contains-keys_where is_empty q kept d',
        get-retain_open st.channels q st.consumers,
      )
