-- ===== src/Clients/Receiver/Writer/Complete.antt =====
-- What `process_messages_task` of clients/receiver_1/src/main.rs does to its buffered writer, as a sequence of calls.
use cipher_mq.Common.{
  ◌<◌, ◌≡◌, refl, sym, ap, ◌∙◌, String, Bool, true, false, some, List, [], ◌∷◌, ◌++◌, append-nil,
  if◌then◌else◌, length, length-append, subst, Result, arith,
}
use cipher_mq.Clients.Receiver.Writer.{
  StoredRecord, Event, received, closed, elapsed, BufWriter, Writer, opened, flush_batch,
  flush_pending, push, step, messages_loop, last_flush, process_messages_task,
}
use cipher_mq.Clients.Receiver.Writer.Calls.{
  lines_of, Call, flushes, replay, texts, texts-append, ends_flushed, ends_flushed-append,
  replay-append, IsWritten, then_IsWritten, still-IsWritten, flush_pending-IsWritten,
  flush_pending-batch, push-IsWritten,
}

-- What is received before the task comes to its end.
abbrev pub received_before_end : List Event → List StoredRecord
received_before_end [] = []
received_before_end (received entry ∷ events) = entry ∷ received_before_end events
received_before_end (closed ∷ events) = []
received_before_end (elapsed true ∷ events) = received_before_end events
received_before_end (elapsed false ∷ events) = []

module _ {W : Type 0} (io : BufWriter W) (to_string : StoredRecord → Result String String) where
  -- The loop on what it finds.
  record IsDone (events : List Event) (w : Writer W) (result : Bool × Writer W) : Type 0 where
    trace : IsWritten io to_string (received_before_end events) w result.1
    short : length result.1.batch < 100
    ended : (if result.0 then length result.1.batch else 0) ≡ 0

  short-push :
      (entry : StoredRecord) (w : Writer W)
      → length w.batch < 100
      → length (push io to_string entry w).batch < 100
  unfolding push flush_batch
  short-push entry w h = ground (arith, length-append w.batch (entry ∷ []))

  flushed-IsDone :
      (events : List Event) (w : Writer W)
      → received_before_end events ≡ []
      → IsDone events w (true, flush_pending io to_string w)
  flushed-IsDone events w nothing = record {
    trace =
        subst (λ entries. IsWritten io to_string entries w (flush_pending io to_string w))
          (sym nothing) (flush_pending-IsWritten io to_string w);
    short = ground (arith, flush_pending-batch io to_string w);
    ended = flush_pending-batch io to_string w;
  }

  messages_loop-IsDone :
      (events : List Event) (w : Writer W)
      → length w.batch < 100
      → IsDone events w (messages_loop io to_string events w)
  unfolding messages_loop step
  messages_loop-IsDone [] w h = record {
    trace = still-IsWritten io to_string w;
    short = h;
    ended = refl;
  }
  messages_loop-IsDone (received entry ∷ events) w h =
      let rest = messages_loop-IsDone events (push io to_string entry w) (short-push entry w h) in
      record {
        trace = then_IsWritten io to_string (push-IsWritten io to_string entry w) rest.trace;
        short = rest.short;
        ended = rest.ended;
      }
  messages_loop-IsDone (closed ∷ events) w h = flushed-IsDone (closed ∷ events) w refl
  messages_loop-IsDone (elapsed true ∷ events) w h =
      let rest =
        messages_loop-IsDone events (flush_pending io to_string w)
          (ground (arith, flush_pending-batch io to_string w)) in
      record {
        trace = then_IsWritten io to_string (flush_pending-IsWritten io to_string w) rest.trace;
        short = rest.short;
        ended = rest.ended;
      }
  messages_loop-IsDone (elapsed false ∷ events) w h = flushed-IsDone (elapsed false ∷ events) w refl

  -- What has been done to the file at `file` once the task is at `w`, and `ended` when it has come to its end.
  pub record IsComplete (events : List Event) (file : W) (ended : Bool) (w : Writer W)
      : Type 0 where
    pub calls : List Call
    pub replayed : w.file ≡ replay io calls file
    pub written :
        texts calls ++ lines_of to_string w.batch ≡ lines_of to_string (received_before_end events)
    pub short : length w.batch < 100
    pub nothing_left : (if ended then length w.batch else 0) ≡ 0
    pub flushed : (if ended then ends_flushed calls else true) ≡ true

  last_flush-IsComplete :
      (events : List Event) (file : W) (result : Bool × Writer W)
      → IsDone events (opened file) result
      → IsComplete events file (last_flush io to_string result).0 (last_flush io to_string result).1
  unfolding lines_of replay texts
  last_flush-IsComplete events file (false, w) v = record {
    calls = v.trace.calls;
    replayed = v.trace.file;
    written = v.trace.written;
    short = v.short;
    nothing_left = v.ended;
    flushed = refl;
  }
  last_flush-IsComplete events file (true, w) v = record {
    calls = v.trace.calls ++ flushes ∷ [];
    replayed =
        ap (λ f. (io.flush f).1) v.trace.file
        ∙ sym (replay-append io to_string v.trace.calls (flushes ∷ []) file);
    written =
        ap (λ ts. ts ++ lines_of to_string w.batch)
          (texts-append v.trace.calls (flushes ∷ []) ∙ append-nil (texts v.trace.calls))
        ∙ v.trace.written;
    short = v.short;
    nothing_left = v.ended;
    flushed = ends_flushed-append v.trace.calls;
  }

  -- Where the directory can be made and the file opened, the task does to the buffered writer a sequence of
  -- calls, whatever it finds from its start on and whether or not these calls succeed. The texts in them and the
  -- lines of what waits in its batch are the lines of all records that it received, in their order and each
  -- once, so the lines of a write that failed are not written again; less than 100 records wait. When the
  -- task has come to its end no record waits and its last call is a flush.
  pub process_messages_task-IsComplete :
      (events : List Event) (file : W)
      → (ended : Bool) × (w : Writer W) × (process_messages_task io to_string true
            (some file)
            events
          ≡ some (ended, w))
        × IsComplete events file ended w
  unfolding process_messages_task
  process_messages_task-IsComplete events file =
      let result = messages_loop io to_string events (opened file) in
      (
        (last_flush io to_string result).0,
        (last_flush io to_string result).1,
        refl,
        last_flush-IsComplete events file result
            (messages_loop-IsDone events (opened file) (ground arith)),
      )
