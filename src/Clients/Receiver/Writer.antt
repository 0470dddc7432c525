-- ===== src/Clients/Receiver/Writer.antt =====
-- `process_messages_task` and `flush_batch` of clients/receiver_1/src/main.rs. The
-- `BufWriter` comes from outside; its errors are logged or ignored, and the task goes on.
pub mod Calls
pub mod Complete
use cipher_mq.Common.{
  ℕ, ◌+◌, ◌<◌, ◌≡◌, refl, sym, ap, ◌∙◌, inl, inr, String, Bool, true, false, Option, none, some,
  List, [], ◌∷◌, ◌++◌, append_assoc, append-nil, if◌then◌else◌, leb, eqb, length, length-append,
  subst, if_split, Result-cases, Bool-cases, Result, ok, err, arith,
}

-- The content of `message` stands for the object around it, and the time is in milliseconds.
pub record StoredRecord : Type 0 where
  pub message_id : String
  pub message : String
  pub timestamp : ℕ

-- What the task finds within five seconds: a record, a closed channel, or nothing, and then whether
-- the program still runs.
pub data Event : Type 0 where
  received : StoredRecord → Event
  closed : Event
  elapsed : Bool → Event

-- `tokio::io::BufWriter` over a file: what a call gives, and what has become of the writer.
pub record BufWriter (W : Type 0) : Type 0 where
  pub write_all : String → W → Result String (Unit {0}) × W
  pub flush : W → Result String (Unit {0}) × W

-- The buffered writer, the batch that waits, and how many records were received.
pub record Writer (W : Type 0) : Type 0 where
  pub file : W
  pub batch : List StoredRecord
  pub count : ℕ

abbrev pub opened : {W : Type 0} → W → Writer W
opened file = record { file = file; batch = []; count = 0 }

module _ {W : Type 0} (io : BufWriter W) (to_string : StoredRecord → Result String String) where
  -- The loop of `flush_batch`; a record that cannot be written as JSON is left out.
  unfoldable pub write_lines : List StoredRecord → W → W
  write_lines [] file = file
  write_lines (entry ∷ batch) file = elim (to_string entry) [
    | ok line ↦ write_lines batch (io.write_all "\n" (io.write_all line file).1).1
    | err e ↦ write_lines batch file
  ]

  unfoldable pub flush_batch : Writer W → Writer W
  unfolding write_lines
  flush_batch w = record w { file = (io.flush (write_lines w.batch w.file)).1; batch = [] }

  -- `flush_batch` unless the batch is empty.
  unfoldable pub flush_pending : Writer W → Writer W
  unfolding flush_batch
  flush_pending w = if eqb (length w.batch) 0 then w else flush_batch w

  -- A batch of 100 records is full.
  unfoldable pub push : StoredRecord → Writer W → Writer W
  unfolding flush_batch
  push entry w =
      let pushed = record w { batch = w.batch ++ entry ∷ []; count = w.count + 1 } in
      if leb 100 (length pushed.batch) then flush_batch pushed else pushed

  -- One round of the loop, and whether it is the last.
  unfoldable pub step : Event → Writer W → Bool × Writer W
  unfolding push flush_pending
  step (received entry) w = (false, push entry w)
  step closed w = (true, flush_pending w)
  step (elapsed running) w = (if running then false else true, flush_pending w)

  -- The loop, on what it finds; `true` if it came to its end.
  unfoldable pub messages_loop : List Event → Writer W → Bool × Writer W
  unfolding step
  messages_loop [] w = (false, w)
  messages_loop (event ∷ events) w =
      let (last, w₁) = step event w in
      let rest = messages_loop events w₁ in if last then (true, w₁) else rest

  -- What follows the end of the loop.
  abbrev pub last_flush : Bool × Writer W → Bool × Writer W
  last_flush (false, w) = (false, w)
  last_flush (true, w) = (true, record w { file = (io.flush w.file).1 })

  -- `none` where the directory cannot be made or the file cannot be opened: then nothing is received.
  unfoldable pub process_messages_task : Bool → Option W → List Event → Option (Bool × Writer W)
  unfolding messages_loop
  process_messages_task creates none events = none
  process_messages_task creates (some file) events =
      let run = last_flush (messages_loop events (opened file)) in
      if creates then some run else none
