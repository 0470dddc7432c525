-- ===== src/State/Invariant.antt =====
-- The well-formedness of the broker's state (server/src/state.rs), and that every operation of
-- `ServerState` keeps it.
pub mod Queues
pub mod Operations
pub mod Run
use Prim.Native.Nat.{max}
use cipher_mq.Common.{
  ℕ, ◌≤◌, ◌≡◌, String, true, false, ◌&&◌, List, [], ◌∷◌, ◌==◌, length, All, Table, contains_key,
}
use cipher_mq.State.{Entry, ServerState, EncryptedInputData, contains_pair}

-- No pair stands twice.
abbrev pub DistinctPairs : List (String × String) → Type 0
DistinctPairs [] = Unit
DistinctPairs (b ∷ bs) = (contains_pair b bs ≡ false) × DistinctPairs bs

-- An entry is queued under the identifier of its message.
abbrev pub IsKeyed : Entry → Type 0
IsKeyed e = e.0 ≡ e.1.message_id

-- A queue holds at most `max_queue_size` messages, or one where that is 0.
abbrev pub QueueValid : ℕ → String × List Entry → Type 0
QueueValid size q = (length q.1 ≤ max 1 size) × All IsKeyed q.1

-- The bindings of an exchange that was declared, to queues that were.
abbrev pub BindingsValid :
    Table (List String) → Table (List Entry) → String × List (String × String) → Type 0
BindingsValid exchanges queues b =
    DistinctPairs b.1
    × (contains_key b.0 exchanges ≡ true)
    × All (λ p. contains_key p.0 queues ≡ true) b.1

pub record IsValid {S : Type 0} (st : ServerState S) : Type 0 where
  pub queues : All (QueueValid st.max_queue_size) st.queues
  pub bindings : All (BindingsValid st.exchanges st.queues) st.bindings
