-- ===== src/Clients/Sender/Batches.antt =====
-- The batches of the main loop of `send_messages_async_pipeline` of clients/sender_1/src/main.rs, and how far it
-- comes.
use cipher_mq.Common.{
  ℕ, zero, suc, ◌+◌, ◌-◌, ◌≤◌, ◌<◌, ◌≡◌, refl, sym, ap, ◌∙◌, inl, inr, Bool, true, false, not, List,
  [], ◌∷◌, ◌++◌, append-nil, length, if◌then◌else◌, ltb, Bool-cases, arith,
}

abbrev pub batch_end : ℕ → ℕ → ℕ → ℕ
batch_end batch_size num_messages i =
    if ltb (i + batch_size) num_messages then i + batch_size else num_messages

module _ (gets_permit : ℕ → Bool) where
  -- The inner loop over so many messages from message `i` on: the sequence numbers of the messages that get the
  -- permits that they wait for and are handed to the connection, and whether it comes to its end. `gets_permit`
  -- says whether these waits of a message come to an end. The first message has the number 1.
  unfoldable pub send_batch : ℕ → ℕ → List ℕ × Bool
  send_batch i zero = ([], true)
  send_batch i (suc n) =
      let (numbers, ends) = send_batch (i + 1) n in
      if gets_permit (i + 1) then ((i + 1) ∷ numbers, ends) else ([], false)

  -- The batches from message `i` on, each with its sequence numbers, and whether the loop over them comes to its
  -- end; at most `fuel` of them.
  unfoldable pub batches : ℕ → ℕ → ℕ → ℕ → List (List ℕ) × Bool
  unfolding send_batch
  batches zero batch_size num_messages i = ([], not (ltb i num_messages))
  batches (suc fuel) batch_size num_messages i =
      let end = batch_end batch_size num_messages i in
      let (numbers, goes_on) = send_batch i (end - i) in
      let (rest, ends) = batches fuel batch_size num_messages end in
      if ltb i num_messages
      then (if goes_on then (numbers ∷ rest, ends) else (numbers ∷ [], false))
      else ([], true)

-- The sequence numbers of so many messages from a message on.
unfoldable pub numbers : ℕ → ℕ → List ℕ
numbers i zero = []
numbers i (suc n) = (i + 1) ∷ numbers (i + 1) n

-- The front of a list up to the first number that fails, and whether none does.
unfoldable pub sent_until : (ℕ → Bool) → List ℕ → List ℕ × Bool
sent_until gets_permit [] = ([], true)
sent_until gets_permit (n ∷ ns) =
    let rest = sent_until gets_permit ns in
    if gets_permit n then (n ∷ rest.0, rest.1) else ([], false)

unfoldable pub concat : List (List ℕ) → List ℕ
concat [] = []
concat (xs ∷ xss) = xs ++ concat xss

-- Every list but the last has so many members, and the last at most as many.
abbrev pub IsChunked : ℕ → List (List ℕ) → Type 0
IsChunked size [] = Unit
IsChunked size (ns ∷ []) = length ns ≤ size
IsChunked size (ns ∷ ms ∷ nss) = (length ns ≡ size) × IsChunked size (ms ∷ nss)

IsChunked-cons :
    (size : ℕ) (ns : List ℕ) (nss : List (List ℕ))
    → length ns ≡ size
    → IsChunked size nss
    → IsChunked size (ns ∷ nss)
IsChunked-cons size ns [] h v = omega (arith, h)
IsChunked-cons size ns (ms ∷ nss) h v = (h, v)

numbers-append : (i m n : ℕ) → numbers i m ++ numbers (i + m) n ≡ numbers i (m + n)
unfolding numbers
numbers-append i zero n = ground arith
numbers-append i (suc m) n =
    let longer : suc m + n ≡ suc (m + n) = omega arith in
    let later : i + suc m ≡ i + 1 + m = omega arith in
    rw (longer, later) (ap (λ ns. (i + 1) ∷ ns) (numbers-append (i + 1) m n))

numbers-split :
    (i e n : ℕ) → i ≤ e → e ≤ n → numbers i (e - i) ++ numbers e (n - e) ≡ numbers i (n - i)
numbers-split i e n h l =
    let reached : i + (e - i) ≡ e = omega arith in
    let all : (e - i) + (n - e) ≡ n - i = omega arith in
    ap (λ k. numbers i (e - i) ++ numbers k (n - e)) (sym reached)
    ∙ numbers-append i (e - i) (n - e)
    ∙ ap (numbers i) all

none_left : (i n : ℕ) → n ≤ i → numbers i (n - i) ≡ []
unfolding numbers
none_left i n h = let none_more : n - i ≡ 0 = omega arith in rw none_more refl

abbrev follow : List ℕ × Bool → List ℕ × Bool → List ℕ × Bool
follow (ns, true) rest = (ns ++ rest.0, rest.1)
follow (ns, false) rest = (ns, false)

module _ (gets_permit : ℕ → Bool) where
  sent_until-append :
      (xs ys : List ℕ)
      → sent_until gets_permit (xs ++ ys)
        ≡ follow (sent_until gets_permit xs) (sent_until gets_permit ys)
  unfolding sent_until
  sent_until-append [] ys = refl
  sent_until-append (x ∷ xs) ys = elim (Bool-cases (gets_permit x)) [
    | inl gets ↦ rw (gets, sent_until-append xs ys) (consed (sent_until gets_permit xs))
    | inr waits ↦ rw waits refl
  ]
    where
      consed :
          (front : List ℕ × Bool)
          → Path
              (List ℕ × Bool)
              (
                x ∷ (follow front (sent_until gets_permit ys)).0,
                (follow front (sent_until gets_permit ys)).1,
              )
              (follow (x ∷ front.0, front.1) (sent_until gets_permit ys))
      consed (ns, true) = refl
      consed (ns, false) = refl

  send_batch_lem : (i n : ℕ) → send_batch gets_permit i n ≡ sent_until gets_permit (numbers i n)
  unfolding send_batch sent_until numbers
  send_batch_lem i zero = refl
  send_batch_lem i (suc n) =
      ap (λ rest. if gets_permit (i + 1) then ((i + 1) ∷ rest.0, rest.1) else ([], false))
        (send_batch_lem (i + 1) n)

  -- A batch that comes to its end has all its messages.
  length-send_batch :
      (i n : ℕ)
      → (length (send_batch gets_permit i n).0 ≤ n)
        × ((if (send_batch gets_permit i n).1 then length (send_batch gets_permit i n).0 else n)
            ≡ n)
  unfolding send_batch
  length-send_batch i zero = (omega arith, refl)
  length-send_batch i (suc n) = ground (arith, length-send_batch (i + 1) n)

  no_batches :
      (fuel batch_size num_messages i : ℕ)
      → num_messages ≤ i
      → batches gets_permit fuel batch_size num_messages i ≡ ([], true)
  unfolding batches
  no_batches zero batch_size num_messages i h = ground arith
  no_batches (suc fuel) batch_size num_messages i h = ground arith

  abbrev flat : List (List ℕ) × Bool → List ℕ × Bool
  flat (nss, ends) = (concat nss, ends)

  joined :
      (batch : List ℕ × Bool) (rest : List (List ℕ) × Bool)
      → flat (if batch.1 then (batch.0 ∷ rest.0, rest.1) else (batch.0 ∷ [], false))
        ≡ follow batch (flat rest)
  unfolding concat
  joined (ns, true) rest = refl
  joined (ns, false) rest = ap (λ ms. (ms, false)) (append-nil ns)

  sent-batches :
      (fuel batch_size num_messages i : ℕ)
      → 0 < batch_size
      → i ≤ num_messages
      → num_messages ≤ i + fuel
      → flat (batches gets_permit fuel batch_size num_messages i)
        ≡ sent_until gets_permit (numbers i (num_messages - i))
  unfolding concat batches sent_until
  sent-batches zero batch_size num_messages i h l f =
      rw (none_left i num_messages (omega arith)) (ground arith)
  sent-batches (suc fuel) batch_size num_messages i h l f = elim (Bool-cases (ltb i num_messages)) [
    | inr done ↦ rw (done, none_left i num_messages (ground arith)) refl
    | inl more ↦
        let end = batch_end batch_size num_messages i in
        let ends : end ≤ num_messages = ground arith in
        let left : num_messages ≤ end + fuel = ground arith in
        rw more (
          joined (send_batch gets_permit i (end - i))
            (batches gets_permit fuel batch_size num_messages end)
          ∙ ap (follow (send_batch gets_permit i (end - i)))
              (sent-batches fuel batch_size num_messages end h ends left)
          ∙ ap (λ batch. follow batch (sent_until gets_permit (numbers end (num_messages - end))))
              (send_batch_lem i (end - i))
          ∙ sym (sent_until-append (numbers i (end - i)) (numbers end (num_messages - end)))
          ∙ ap (sent_until gets_permit) (numbers-split i end num_messages (ground arith) ends))
  ]

  batches-IsChunked :
      (fuel batch_size num_messages i : ℕ)
      → IsChunked batch_size (batches gets_permit fuel batch_size num_messages i).0
  unfolding batches
  batches-IsChunked zero batch_size num_messages i = tt
  batches-IsChunked (suc fuel) batch_size num_messages i =
      let end = batch_end batch_size num_messages i in
      let batch = send_batch gets_permit i (end - i) in
      let rest = batches gets_permit fuel batch_size num_messages end in
      let size = length-send_batch i (end - i) in
      let small : length batch.0 ≤ batch_size = ground (arith, size) in
      elim (Bool-cases (ltb i num_messages)) [
        | inr done ↦ rw done tt
        | inl more ↦ elim (Bool-cases batch.1) [
          | inr waits ↦ rw (more, waits) small
          | inl goes_on ↦ elim (Bool-cases (ltb end num_messages)) [
            | inl some_left ↦
                let full : length batch.0 ≡ batch_size = ground (arith, size, goes_on) in
                rw (more, goes_on)
                  (IsChunked-cons batch_size batch.0 rest.0 full
                    (batches-IsChunked fuel batch_size num_messages end))
            | inr last ↦
                let nothing = no_batches fuel batch_size num_messages end (ground arith) in
                rw (more, goes_on, nothing) small
          ]
        ]
      ]

  -- Where batches have messages, the loop hands the messages that are left to the connection in order and each
  -- once, up to the first one that waits for a permit in vain; every batch has `batch_size` messages, but the last
  -- one may have fewer. The loop comes to its end exactly if there is no such wait: as many rounds as
  -- there are messages left are enough.
  pub concat-batches :
      (fuel batch_size num_messages i : ℕ)
      → 0 < batch_size
      → i ≤ num_messages
      → num_messages ≤ i + fuel
      → let (sent, ends) = batches gets_permit fuel batch_size num_messages i in
        (Path
          (List ℕ × Bool)
          (concat sent, ends)
          (sent_until gets_permit (numbers i (num_messages - i))))
        × IsChunked batch_size sent
  concat-batches fuel batch_size num_messages i h l f = (
    sent-batches fuel batch_size num_messages i h l f,
    batches-IsChunked fuel batch_size num_messages i,
  )
