-- ===== src/Storage/Service.antt =====
-- `Storage` of server/src/storage.rs as the broker sees it: the worker behind the interface, one
-- command at a time.
use cipher_mq.Common.{ℕ, ◌+◌, String, Option}
use cipher_mq.Storage.{StorageApi}
use cipher_mq.Storage.Worker.{
  Worker, save_metadata, update_delivered_time_async, update_acknowledged_time_async,
  get_client_id_for_message,
}
use cipher_mq.Storage.Keys.{Bytes, Crypto, save_public_key, get_public_key}

-- The worker with what it meets: how the statement of each command ends, and the random nonces.
pub record Storage : Type 0 where
  pub worker : Worker
  pub outcomes : ℕ → Option String
  pub nonces : ℕ → Bytes
  pub tick : ℕ

abbrev next : Worker → Storage → Storage
next worker s = record s { worker = worker; tick = s.tick + 1 }

unfoldable pub service : Crypto → StorageApi Storage
unfolding save_metadata update_delivered_time_async update_acknowledged_time_async
    get_client_id_for_message save_public_key get_public_key
service crypto = record {
  save_metadata = λ metadata s.
      let (result, w) = save_metadata (s.outcomes s.tick) metadata s.worker in (result, next w s);
  update_delivered_time_async =
      λ id time s. next (update_delivered_time_async (s.outcomes s.tick) id time s.worker) s;
  update_acknowledged_time_async =
      λ id time s. next (update_acknowledged_time_async (s.outcomes s.tick) id time s.worker) s;
  get_client_id_for_message =
      λ id s. (get_client_id_for_message (s.outcomes s.tick) id s.worker, next s.worker s);
  save_public_key = λ key_data s.
      let (result, w) =
        save_public_key crypto (s.outcomes s.tick) (s.nonces s.tick) key_data s.worker in
      (result, next w s);
  get_public_key = λ client_id s.
      (get_public_key crypto (s.outcomes s.tick) client_id s.worker, next s.worker s);
}
