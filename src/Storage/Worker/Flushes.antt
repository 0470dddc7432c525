-- ===== src/Storage/Worker/Flushes.antt =====
-- What a flush of the buffers of server/src/storage.rs does to the rows.
use mathlib.Core.Option
use cipher_mq.Common.{
  ◌≡◌, refl, inl, inr, String, Option, none, some, [], ◌∷◌, arith, Table, get, modify, get-modify,
  Option-cases,
}
use cipher_mq.Storage.{MessageMetadata}
use cipher_mq.Storage.Worker.{
  Worker, set_delivered, set_acknowledged, update_rows, flush_delivered_updates,
  flush_acknowledged_updates, flush_updates,
}

-- A row with the time of the buffer, if it is there.
abbrev pub updated :
    (String → MessageMetadata → MessageMetadata) → Option String → MessageMetadata → MessageMetadata
updated set_time none row = row
updated set_time (some time) row = set_time time row

-- Two updates of the same row amount to the first.
FirstWins : (String → MessageMetadata → MessageMetadata) → Type 0
FirstWins set_time =
    (first second : String) (row : MessageMetadata)
    → set_time second (set_time first row) ≡ set_time first row

get-update_rows :
    (set_time : String → MessageMetadata → MessageMetadata)
    → FirstWins set_time
    → (id : String) (updates : Table String) (rows : Table MessageMetadata)
    → get id (update_rows set_time updates rows)
      ≡ Option.map (updated set_time (get id updates)) (get id rows)
unfolding FirstWins update_rows get
get-update_rows set_time wins id [] rows = elim (Option-cases (get id rows)) [
  | inl missing ↦ ground arith
  | inr (row, found) ↦ ground arith
]
get-update_rows set_time wins id ((key, time) ∷ updates) rows =
    elim (Option-cases (get id updates)) [
      | inl missing ↦ ground (
        arith,
        get-update_rows set_time wins id updates (modify key (set_time time) rows),
        get-modify id key (set_time time) rows,
      )
      | inr (later, found) ↦ elim (Option-cases (get id rows)) [
        | inl missing ↦ ground (
          arith,
          get-update_rows set_time wins id updates (modify key (set_time time) rows),
          get-modify id key (set_time time) rows,
        )
        | inr (row, present) ↦ ground (
          arith,
          wins time later row,
          get-update_rows set_time wins id updates (modify key (set_time time) rows),
          get-modify id key (set_time time) rows,
        )
      ]
    ]

set_delivered-FirstWins : FirstWins set_delivered
unfolding FirstWins
set_delivered-FirstWins first second row = ground arith

set_acknowledged-FirstWins : FirstWins set_acknowledged
unfolding FirstWins
set_acknowledged-FirstWins first second row = ground arith

-- The row of a message after both buffers are flushed without a failure: each time that was set stays,
-- a time that was not set is the one of the buffer, if there is one, and everything else is as it was.
pub flush_updates-rows :
    (id : String) (w : Worker)
    → get id (flush_updates none none w).message_metadata
      ≡ Option.map
          (λ row.
            updated set_acknowledged
              (get id w.acknowledged_updates)
              (updated set_delivered (get id w.delivered_updates) row))
          (get id w.message_metadata)
unfolding flush_updates flush_delivered_updates flush_acknowledged_updates
flush_updates-rows id w = elim (Option-cases (get id w.message_metadata)) [
  | inl missing ↦ ground (
    arith,
    get-update_rows set_delivered set_delivered-FirstWins id w.delivered_updates w.message_metadata,
    get-update_rows set_acknowledged set_acknowledged-FirstWins id w.acknowledged_updates
        (update_rows set_delivered w.delivered_updates w.message_metadata),
  )
  | inr (row, found) ↦ ground (
    arith,
    get-update_rows set_delivered set_delivered-FirstWins id w.delivered_updates w.message_metadata,
    get-update_rows set_acknowledged set_acknowledged-FirstWins id w.acknowledged_updates
        (update_rows set_delivered w.delivered_updates w.message_metadata),
  )
]

-- When the flush of both buffers fails, a flush that then succeeds changes no row: what was buffered is
-- lost.
pub flush_updates-failed :
    (e e' : String) (w : Worker)
    → (flush_updates none none (flush_updates (some e) (some e') w)).message_metadata
      ≡ w.message_metadata
unfolding flush_updates flush_delivered_updates flush_acknowledged_updates update_rows
flush_updates-failed e e' w = refl
