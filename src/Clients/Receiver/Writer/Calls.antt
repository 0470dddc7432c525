-- ===== src/Clients/Receiver/Writer/Calls.antt =====
-- The calls that `flush_batch` and the rounds of `process_messages_task` of clients/receiver_1/src/main.rs make on the
-- buffered writer.
use cipher_mq.Common.{
  ◌+◌, ◌≡◌, refl, sym, ap, ◌∙◌, inl, inr, String, Bool, true, false, List, [], ◌∷◌, ◌++◌,
  append_assoc, append-nil, leb, eqb, length, if_split, Result-cases, Result, ok, err, arith,
}
use cipher_mq.Clients.Receiver.Writer.{
  StoredRecord, BufWriter, Writer, write_lines, flush_batch, flush_pending, push,
}

-- The lines of a batch.
unfoldable pub lines_of : (StoredRecord → Result String String) → List StoredRecord → List String
lines_of to_string [] = []
lines_of to_string (entry ∷ batch) =
    let rest = lines_of to_string batch in
    elim (to_string entry) [ ok line ↦ line ∷ "\n" ∷ rest | err e ↦ rest ]

-- A call on a buffered writer, and what is done to it by calls, in their order.
pub data Call : Type 0 where
  writes : String → Call
  flushes : Call

unfoldable pub replay : {W : Type 0} → BufWriter W → List Call → W → W
replay io [] file = file
replay io (writes text ∷ calls) file = replay io calls (io.write_all text file).1
replay io (flushes ∷ calls) file = replay io calls (io.flush file).1

-- The texts that are written.
unfoldable pub texts : List Call → List String
texts [] = []
texts (writes text ∷ calls) = text ∷ texts calls
texts (flushes ∷ calls) = texts calls

pub texts-append : (xs ys : List Call) → texts (xs ++ ys) ≡ texts xs ++ texts ys
unfolding texts
texts-append [] ys = refl
texts-append (writes text ∷ xs) ys = ap (λ ts. text ∷ ts) (texts-append xs ys)
texts-append (flushes ∷ xs) ys = texts-append xs ys

-- The last call is a flush.
abbrev pub ends_flushed : List Call → Bool
ends_flushed [] = false
ends_flushed (writes text ∷ []) = false
ends_flushed (flushes ∷ []) = true
ends_flushed (_ ∷ call ∷ calls) = ends_flushed (call ∷ calls)

pub ends_flushed-append : (calls : List Call) → ends_flushed (calls ++ flushes ∷ []) ≡ true
ends_flushed-append [] = refl
ends_flushed-append (writes text ∷ []) = refl
ends_flushed-append (flushes ∷ []) = refl
ends_flushed-append (writes text ∷ call ∷ calls) = ends_flushed-append (call ∷ calls)
ends_flushed-append (flushes ∷ call ∷ calls) = ends_flushed-append (call ∷ calls)

module _ {W : Type 0} (io : BufWriter W) (to_string : StoredRecord → Result String String) where
  pub replay-append :
      (xs ys : List Call) (file : W) → replay io (xs ++ ys) file ≡ replay io ys (replay io xs file)
  unfolding replay
  replay-append [] ys file = refl
  replay-append (writes text ∷ xs) ys file = replay-append xs ys (io.write_all text file).1
  replay-append (flushes ∷ xs) ys file = replay-append xs ys (io.flush file).1

  lines_of-append :
      (xs ys : List StoredRecord)
      → lines_of to_string (xs ++ ys) ≡ lines_of to_string xs ++ lines_of to_string ys
  unfolding lines_of
  lines_of-append [] ys = refl
  lines_of-append (x ∷ xs) ys = ground (arith, lines_of-append xs ys)

  -- What was done between two states of the task, in which it received some records.
  pub record IsWritten (entries : List StoredRecord) (w w' : Writer W) : Type 0 where
    pub calls : List Call
    pub file : w'.file ≡ replay io calls w.file
    pub written :
        texts calls ++ lines_of to_string w'.batch
        ≡ lines_of to_string w.batch ++ lines_of to_string entries

  pub then_IsWritten :
      {xs ys : List StoredRecord} {w w₁ w₂ : Writer W}
      → IsWritten xs w w₁
      → IsWritten ys w₁ w₂
      → IsWritten (xs ++ ys) w w₂
  then_IsWritten {xs} {ys} {w} {w₁} {w₂} first next =
      let l = lines_of to_string in
      record {
        calls = first.calls ++ next.calls;
        file =
            next.file
            ∙ ap (replay io next.calls) first.file
            ∙ sym (replay-append first.calls next.calls w.file);
        written =
            ap (λ ts. ts ++ l w₂.batch) (texts-append first.calls next.calls)
            ∙ append_assoc (texts first.calls) (texts next.calls) (l w₂.batch)
            ∙ ap (λ ts. texts first.calls ++ ts) next.written
            ∙ sym (append_assoc (texts first.calls) (l w₁.batch) (l ys))
            ∙ ap (λ ts. ts ++ l ys) first.written
            ∙ append_assoc (l w.batch) (l xs) (l ys)
            ∙ ap (λ ts. l w.batch ++ ts) (sym (lines_of-append xs ys));
      }

  pub still-IsWritten : (w : Writer W) → IsWritten [] w w
  unfolding lines_of texts replay
  still-IsWritten w = record {
    calls = [];
    file = refl;
    written = sym (append-nil (lines_of to_string w.batch));
  }

  write_lines-calls :
      (batch : List StoredRecord) (file : W)
      → (calls : List Call) × (write_lines io to_string batch file ≡ replay io calls file)
        × (texts calls ≡ lines_of to_string batch)
  unfolding write_lines lines_of texts replay
  write_lines-calls [] file = ([], refl, refl)
  write_lines-calls (entry ∷ batch) file = elim (Result-cases (to_string entry)) [
    | inl (line, shown) ↦
        let (calls, same, lines) =
          write_lines-calls batch (io.write_all "\n" (io.write_all line file).1).1 in
        (
          writes line ∷ writes "\n" ∷ calls,
          ground (arith, shown, same),
          ground (arith, shown, lines),
        )
    | inr (e, failed) ↦
        let (calls, same, lines) = write_lines-calls batch file in
        (calls, ground (arith, failed, same), ground (arith, failed, lines))
  ]

  flush_batch-IsWritten : (w : Writer W) → IsWritten [] w (flush_batch io to_string w)
  unfolding flush_batch lines_of texts replay
  flush_batch-IsWritten w =
      let (calls, same, lines) = write_lines-calls w.batch w.file in
      record {
        calls = calls ++ flushes ∷ [];
        file = ap (λ f. (io.flush f).1) same ∙ sym (replay-append calls (flushes ∷ []) w.file);
        written =
            append-nil (texts (calls ++ flushes ∷ []))
            ∙ texts-append calls (flushes ∷ [])
            ∙ ap (λ ts. ts ++ []) lines;
      }

  pub flush_pending-IsWritten : (w : Writer W) → IsWritten [] w (flush_pending io to_string w)
  unfolding flush_pending
  flush_pending-IsWritten w =
      if_split (IsWritten [] w) (eqb (length w.batch) 0) (λ _. still-IsWritten w)
        (flush_batch-IsWritten w)

  pub flush_pending-batch : (w : Writer W) → length (flush_pending io to_string w).batch ≡ 0
  unfolding flush_pending flush_batch
  flush_pending-batch w = ground arith

  pushed-IsWritten :
      (entry : StoredRecord) (w : Writer W)
      → IsWritten (entry ∷ []) w (record w { batch = w.batch ++ entry ∷ []; count = w.count + 1 })
  unfolding texts replay
  pushed-IsWritten entry w = record {
    calls = [];
    file = refl;
    written = lines_of-append w.batch (entry ∷ []);
  }

  pub push-IsWritten :
      (entry : StoredRecord) (w : Writer W) → IsWritten (entry ∷ []) w (push io to_string entry w)
  unfolding push
  push-IsWritten entry w =
      let pushed : Writer W = record w { batch = w.batch ++ entry ∷ []; count = w.count + 1 } in
      if_split (IsWritten (entry ∷ []) w) (leb 100 (length pushed.batch))
        (λ _. then_IsWritten (pushed-IsWritten entry w) (flush_batch-IsWritten pushed))
        (pushed-IsWritten entry w)
