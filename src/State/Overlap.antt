-- ===== src/State/Overlap.antt =====
-- `publish` of server/src/state.rs as it runs beside other tasks: the check for duplicates and the command to the
-- database are one step, and what follows its answer is another; between them other calls take place.
pub mod Races
use cipher_mq.Common.{
  ℕ, ◌≡◌, refl, ap, ◌∙◌, Bool-cases, Result-cases, String, true, false, List, [], ◌∷◌, ◌++◌,
  if◌then◌else◌, contains_key, Result, ok, err, format, inl, inr,
}
use cipher_mq.Storage.{StorageApi, StorageError, display}
use cipher_mq.State.{EncryptedInputData, ServerState, new}
use cipher_mq.State.Publish.{duplicate, metadata_of, route, publish}
use cipher_mq.State.Publish.Outcome.{publish_cases, save_result, saved_storage}
use cipher_mq.State.Invariant.{IsValid}
use cipher_mq.State.Invariant.Operations.{new-IsValid, route-IsValid}
use cipher_mq.State.Invariant.Run.{Call, perform, perform-IsValid}

-- A publication that waits for the database, and the answer that it will get.
pub record Waiting : Type 0 where
  pub exchange : String
  pub key : String
  pub message : EncryptedInputData
  pub received_time : ℕ
  pub saved : Result StorageError (Unit {0})

module _ {S : Type 0} where
  -- Up to the `await`: the error of a duplicate, or the publication that waits.
  unfoldable pub begin_publish :
      StorageApi S
      → String
      → String
      → EncryptedInputData
      → String
      → ℕ
      → String
      → ServerState S
      → Result String Waiting × ServerState S
  begin_publish api exchange key m client_id time utc_now st =
      if contains_key m.message_id st.message_status
      then (err (duplicate m.message_id), st)
      else let (saved, storage) =
          api.save_metadata (metadata_of exchange key m client_id utc_now) st.storage in
        (
          ok (record {
            exchange = exchange;
            key = key;
            message = m;
            received_time = time;
            saved = saved;
          }),
          record st { storage = storage },
        )

  -- Behind the `await`.
  unfoldable pub finish_from :
      Waiting
      → Result StorageError (Unit {0})
      → ServerState S
      → Result String (Unit {0}) × ServerState S
  finish_from w (err e) st = (err (format ("Failed to save metadata: " ∷ display e ∷ [])), st)
  finish_from w (ok _) st = route w.exchange w.key w.message w.received_time st

  abbrev pub finish_publish : Waiting → ServerState S → Result String (Unit {0}) × ServerState S
  finish_publish w st = finish_from w w.saved st

  unfoldable pub at_once :
      Result String Waiting × ServerState S → Result String (Unit {0}) × ServerState S
  unfolding finish_from
  at_once (err e, st) = (err e, st)
  at_once (ok w, st) = finish_publish w st

  pub begin_publish-known :
      (api : StorageApi S) (exchange key : String) (m : EncryptedInputData) (client_id : String)
      (time : ℕ) (utc_now : String) (st : ServerState S)
      → contains_key m.message_id st.message_status ≡ true
      → begin_publish api exchange key m client_id time utc_now st
        ≡ (err (duplicate m.message_id), st)
  unfolding begin_publish
  begin_publish-known api exchange key m client_id time utc_now st known =
      rw (begin_publish, known) refl

  abbrev pub waiting_for :
      StorageApi S
      → String
      → String
      → EncryptedInputData
      → String
      → ℕ
      → String
      → ServerState S
      → Waiting
  waiting_for api exchange key m client_id time utc_now st = record {
    exchange = exchange;
    key = key;
    message = m;
    received_time = time;
    saved = save_result api exchange key m client_id time utc_now st;
  }

  pub begin_publish-fresh :
      (api : StorageApi S) (exchange key : String) (m : EncryptedInputData) (client_id : String)
      (time : ℕ) (utc_now : String) (st : ServerState S)
      → contains_key m.message_id st.message_status ≡ false
      → begin_publish api exchange key m client_id time utc_now st ≡ (
        ok (waiting_for api exchange key m client_id time utc_now st),
        record st { storage = saved_storage api exchange key m client_id time utc_now st },
      )
  unfolding begin_publish
  begin_publish-fresh api exchange key m client_id time utc_now st fresh =
      rw (begin_publish, fresh) refl

  -- The two steps are the whole of `publish` where nothing comes between them.
  pub at_once-begin_publish :
      (api : StorageApi S) (exchange key : String) (m : EncryptedInputData) (client_id : String)
      (time : ℕ) (utc_now : String) (st : ServerState S)
      → at_once (begin_publish api exchange key m client_id time utc_now st)
        ≡ publish api exchange key m client_id time utc_now st
  unfolding at_once publish finish_from
  at_once-begin_publish api exchange key m client_id time utc_now st =
      elim (Bool-cases (contains_key m.message_id st.message_status)) [
        | inl known ↦
            ap at_once (begin_publish-known api exchange key m client_id time utc_now st known)
            ∙ rw (publish, known) refl
        | inr fresh ↦
            ap at_once (begin_publish-fresh api exchange key m client_id time utc_now st fresh)
            ∙ elim (Result-cases (save_result api exchange key m client_id time utc_now st)) [
              | inl (u, e) ↦ rw (publish, fresh, e, finish_from) refl
              | inr (x, e) ↦ rw (publish, fresh, e, finish_from) refl
            ]
      ]

abbrev pub add_waiting : Result String Waiting → List Waiting → List Waiting
add_waiting (ok w) ws = ws ++ w ∷ []
add_waiting (err e) ws = ws

-- A broker with the publications that wait.
pub record Concurrent (S : Type 0) : Type 0 where
  pub state : ServerState S
  pub waiting : List Waiting

module _ {S : Type 0} where
  -- The tasks take turns: a call of any method runs through, a publication begins, or one that waits goes on,
  -- in whatever order the answers come.
  pub data Step (api : StorageApi S) (s : Concurrent S) (t : Concurrent S) : Type 0 where
    calls : (c : Call) → t ≡ record s { state = perform api c s.state } → Step api s t
    begins :
        (exchange key : String) (m : EncryptedInputData) (client_id : String) (time : ℕ)
        (utc_now : String)
        → t ≡ (
            let (begun, st) = begin_publish api exchange key m client_id time utc_now s.state in
            record { state = st; waiting = add_waiting begun s.waiting })
        → Step api s t
    resumes :
        (before after : List Waiting) (w : Waiting)
        → s.waiting ≡ before ++ w ∷ after
        → t ≡ record { state = (finish_publish w s.state).1; waiting = before ++ after }
        → Step api s t

  pub data Reach (api : StorageApi S) (s : Concurrent S) : Concurrent S → Type 0 where
    here : Reach api s s
    next : {t u : Concurrent S} → Reach api s t → Step api t u → Reach api s u

  abbrev pub idle : S → ℕ → Concurrent S
  idle storage size = record { state = new storage size; waiting = [] }
