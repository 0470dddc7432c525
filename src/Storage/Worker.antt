-- ===== src/Storage/Worker.antt =====
-- The worker task of server/src/storage.rs: its two tables, the SQL statements it sends, and the
-- buffers for the times of delivery and acknowledgement. A statement that fails comes with the text of
-- its `sqlx::Error` and changes nothing.
pub mod Flushes
use mathlib.Core.Option
use cipher_mq.Common.{
  ℕ, String, Bool, true, false, Option, none, some, List, [], ◌∷◌, leb, if◌then◌else◌, length, map,
  retain, Table, get, insert, modify, contains_key, is_some, not, values, Result, ok, err,
}
use cipher_mq.Storage.{StorageError, postgres, MessageMetadata}

-- A row of `public_keys`, without its key.
pub record KeyRow : Type 0 where
  pub public_key_ciphertext : String
  pub nonce : String
  pub tag : String

pub record Worker : Type 0 where
  pub message_metadata : Table MessageMetadata
  pub public_keys : Table KeyRow
  pub delivered_updates : Table String
  pub acknowledged_updates : Table String

abbrev pub batch_size : ℕ
batch_size = 50

-- What a statement returns when it returns nothing else.
abbrev pub outcome : Option String → Result StorageError (Unit {0})
outcome none = ok tt
outcome (some e) = err (postgres e)

-- `ON CONFLICT (message_id) DO UPDATE`: the times of an old row stay.
abbrev pub upserted : MessageMetadata → Option MessageMetadata → MessageMetadata
upserted metadata none = metadata
upserted metadata (some old) = record metadata {
  delivered_time = old.delivered_time;
  acknowledged_time = old.acknowledged_time;
}

-- `WHERE delivered_time IS NULL`: a time that is set stays.
abbrev pub first_time : String → Option String → Option String
first_time time none = some time
first_time time (some old) = some old

abbrev pub set_delivered : String → MessageMetadata → MessageMetadata
set_delivered time row = record row { delivered_time = first_time time row.delivered_time }

abbrev pub set_acknowledged : String → MessageMetadata → MessageMetadata
set_acknowledged time row = record row { acknowledged_time = first_time time row.acknowledged_time }

-- The `UPDATE` on all buffered rows.
unfoldable pub update_rows :
    (String → MessageMetadata → MessageMetadata)
    → Table String
    → Table MessageMetadata
    → Table MessageMetadata
update_rows set_time [] rows = rows
update_rows set_time ((id, time) ∷ updates) rows =
    update_rows set_time updates (modify id (set_time time) rows)

unfoldable pub save_metadata :
    Option String → MessageMetadata → Worker → Result StorageError (Unit {0}) × Worker
save_metadata none metadata w = (
  ok tt,
  record w {
    message_metadata =
        insert metadata.message_id (upserted metadata (get metadata.message_id w.message_metadata))
          w.message_metadata;
  },
)
save_metadata (some e) metadata w = (err (postgres e), w)

-- The buffer is cleared whether the statement fails or not.
unfoldable pub flush_delivered_updates : Option String → Worker → Worker
unfolding update_rows
flush_delivered_updates none w = record w {
  message_metadata = update_rows set_delivered w.delivered_updates w.message_metadata;
  delivered_updates = [];
}
flush_delivered_updates (some e) w = record w { delivered_updates = [] }

unfoldable pub flush_acknowledged_updates : Option String → Worker → Worker
unfolding update_rows
flush_acknowledged_updates none w = record w {
  message_metadata = update_rows set_acknowledged w.acknowledged_updates w.message_metadata;
  acknowledged_updates = [];
}
flush_acknowledged_updates (some e) w = record w { acknowledged_updates = [] }

-- `UpdateDeliveredTimeAsync`
unfoldable pub update_delivered_time_async : Option String → String → String → Worker → Worker
unfolding flush_delivered_updates
update_delivered_time_async failure id time w =
    let w₁ : Worker = record w { delivered_updates = insert id time w.delivered_updates } in
    if leb batch_size (length w₁.delivered_updates) then flush_delivered_updates failure w₁ else w₁

-- `UpdateAcknowledgedTimeAsync`
unfoldable pub update_acknowledged_time_async : Option String → String → String → Worker → Worker
unfolding flush_acknowledged_updates
update_acknowledged_time_async failure id time w =
    let w₁ : Worker = record w { acknowledged_updates = insert id time w.acknowledged_updates } in
    if leb batch_size (length w₁.acknowledged_updates)
    then flush_acknowledged_updates failure w₁
    else w₁

unfoldable pub update_delivered_time_sync :
    Option String → String → String → Worker → Result StorageError (Unit {0}) × Worker
update_delivered_time_sync none id time w =
    (ok tt, record w { message_metadata = modify id (set_delivered time) w.message_metadata })
update_delivered_time_sync (some e) id time w = (err (postgres e), w)

unfoldable pub update_acknowledged_time_sync :
    Option String → String → String → Worker → Result StorageError (Unit {0}) × Worker
update_acknowledged_time_sync none id time w =
    (ok tt, record w { message_metadata = modify id (set_acknowledged time) w.message_metadata })
update_acknowledged_time_sync (some e) id time w = (err (postgres e), w)

-- The tick of the interval, and `FlushUpdates`; a statement for an empty buffer is not sent.
unfoldable pub flush_updates : Option String → Option String → Worker → Worker
unfolding flush_delivered_updates flush_acknowledged_updates
flush_updates failure failure' w =
    flush_acknowledged_updates failure' (flush_delivered_updates failure w)

unfoldable pub load_unacknowledged_metadata :
    Option String → Worker → Result StorageError (List MessageMetadata)
load_unacknowledged_metadata none w =
    ok (retain (λ row. not (is_some row.acknowledged_time)) (values w.message_metadata))
load_unacknowledged_metadata (some e) w = err (postgres e)

unfoldable pub get_client_id_for_message :
    Option String → String → Worker → Result StorageError (Option String)
get_client_id_for_message none id w =
    ok (Option.map (λ (row : MessageMetadata). row.client_id) (get id w.message_metadata))
get_client_id_for_message (some e) id w = err (postgres e)
