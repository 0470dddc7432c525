-- ===== src/State/Deliver/Acknowledge.antt =====
-- What an acknowledgement removes, and what it leaves.
use mathlib.Core.Option
use cipher_mq.Common.{
  ℕ, ◌≡◌, refl, inl, inr, String, true, false, none, List, [], ◌∷◌, ◌++◌, ◌==◌, Table,
  if◌then◌else◌, contains, All, get, contains_key, arith, modify, get-modify, get-remove,
  Option-cases,
}
use cipher_mq.Storage.{StorageApi}
use cipher_mq.State.{Entry, ServerState, without, remove_from_queues, set_or_empty, acknowledged}
use cipher_mq.State.Deliver.{acknowledge}

-- No entry of the queue belongs to the message.
abbrev pub IsFree : String → List Entry → Type 0
IsFree id = All (λ e. (e.0 == id) ≡ false)

without_idem : (id : String) (q : List Entry) → without id (without id q) ≡ without id q
without_idem id [] = refl
without_idem id (e ∷ q) = ground (arith, without_idem id q)

pub without-IsFree : (id : String) (q : List Entry) → IsFree id (without id q)
without-IsFree id [] = tt
without-IsFree id (e ∷ q) = ground (arith, without-IsFree id q)

pub without-append :
    (id : String) (p q : List Entry) → without id (p ++ q) ≡ without id p ++ without id q
without-append id [] q = refl
without-append id (e ∷ p) q = ground (arith, without-append id p q)

pub without_of_IsFree : (id : String) (q : List Entry) → IsFree id q → without id q ≡ q
without_of_IsFree id [] h = refl
without_of_IsFree id (e ∷ q) h = ground (arith, without_of_IsFree id q h.1)

get-remove_from_queues :
    (q id : String) (names : List String) (qs : Table (List Entry))
    → get q (remove_from_queues id names qs)
      ≡ (if contains q names then Option.map (without id) (get q qs) else get q qs)
unfolding remove_from_queues
get-remove_from_queues q id [] qs = refl
get-remove_from_queues q id (name ∷ names) qs = elim (Option-cases (get q qs)) [
  | inl missing ↦ ground (
    arith,
    get-remove_from_queues q id names (modify name (without id) qs),
    get-modify q name (without id) qs,
  )
  | inr (entries, found) ↦ ground (
    arith,
    get-remove_from_queues q id names (modify name (without id) qs),
    get-modify q name (without id) qs,
    without_idem id entries,
  )
]

module _ {S : Type 0} (api : StorageApi S) (id : String) (time : ℕ) (utc_now : String)
    (st : ServerState S) where
  -- An acknowledgement of a known message takes its entries out of exactly the queues of its set,
  -- keeps every other entry in its order, and forgets the set and the status of the message and of
  -- no other.
  pub acknowledge_removes :
      contains_key id st.message_status ≡ true
      → ((q : String)
          → get q (acknowledge api id time utc_now st).queues ≡ (
              if contains q (set_or_empty (get id st.message_queues))
              then Option.map (without id) (get q st.queues)
              else get q st.queues))
        × ((j : String)
            → (get j (acknowledge api id time utc_now st).message_status
                ≡ (if id == j then none else get j st.message_status))
              × (get j (acknowledge api id time utc_now st).message_queues
                  ≡ (if id == j then none else get j st.message_queues)))
  unfolding acknowledge
  acknowledge_removes known = rw known (
    λ q. get-remove_from_queues q id (set_or_empty (get id st.message_queues)) st.queues,
    λ j. (
      ground (
        arith,
        get-remove j id (modify id (acknowledged time) st.message_status),
        get-modify j id (acknowledged time) st.message_status,
      ),
      get-remove j id st.message_queues,
    ),
  )

  pub acknowledge_unknown :
      contains_key id st.message_status ≡ false → acknowledge api id time utc_now st ≡ st
  unfolding acknowledge
  acknowledge_unknown unknown = rw unknown
