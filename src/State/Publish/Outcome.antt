-- ===== src/State/Publish/Outcome.antt =====
-- The four ways a call of `publish` can end.
use cipher_mq.Common.{
  ℕ, ◌≡◌, inl, inr, String, true, false, [], ◌∷◌, contains_key, Bool-cases, Result, ok, err,
  Result-cases, format,
}
use cipher_mq.Storage.{StorageApi, StorageError, display}
use cipher_mq.State.{ServerState, EncryptedInputData}
use cipher_mq.State.Publish.{route, publish, duplicate, metadata_of}

module _ {S : Type 0} (api : StorageApi S) (exchange key : String) (m : EncryptedInputData)
    (client_id : String) (time : ℕ) (utc_now : String) (st : ServerState S) where
  -- The state of the database layer after the call to `save_metadata`.
  abbrev pub saved_storage : S
  saved_storage = (api.save_metadata (metadata_of exchange key m client_id utc_now) st.storage).1

  abbrev pub save_result : Result StorageError (Unit {0})
  save_result = (api.save_metadata (metadata_of exchange key m client_id utc_now) st.storage).0

  pub publish_cases {ℓ} :
      (P : Result String (Unit {0}) × ServerState S → Type ℓ)
      → (contains_key m.message_id st.message_status ≡ true → P (err (duplicate m.message_id), st))
      → ((e : StorageError)
          → save_result ≡ err e
          → P (
            err (format ("Failed to save metadata: " ∷ display e ∷ [])),
            record st { storage = saved_storage },
          ))
      → (contains_key m.message_id st.message_status ≡ false
          → save_result ≡ ok tt
          → P (route exchange key m time (record st { storage = saved_storage })))
      → P (publish api exchange key m client_id time utc_now st)
  unfolding publish
  publish_cases P seen failed routed =
      elim (Bool-cases (contains_key m.message_id st.message_status)) [
        | inl known ↦ rw known (seen known)
        | inr fresh ↦ rw fresh (elim (Result-cases save_result) [
          | inl (u, e) ↦ rw (e, publish) (routed fresh e)
          | inr (x, e) ↦ rw (e, publish) (failed x e)
        ])
      ]
