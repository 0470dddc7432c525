-- ===== src/State/Publish/Consumers.antt =====
-- Whom `publish` of server/src/state.rs notifies: the loop over the consumers of the target queues.
use cipher_mq.Common.{
  ℕ, zero, suc, ◌+◌, ◌≡◌, ◌∙◌, refl, sym, ap, inl, inr, not, none, some, List, [], ◌∷◌, ◌++◌,
  append_assoc, append-nil, if◌then◌else◌, eqb, get_elem?, retain_cong, count, retain, arith,
  Option-cases,
}
use cipher_mq.State.{Entry, Channel, is_closed, send}
use cipher_mq.State.Publish.{offer, offer_all}
use cipher_mq.State.Deliver.Pending.{get_elem?-set}

-- What waits in a channel.
abbrev pub waiting_in : List Channel → ℕ → List Entry
waiting_in chs i = elim (get_elem? chs i) [ none ↦ [] | some c ↦ c.waiting ]

abbrev pub repeated : ℕ → Entry → List Entry
repeated zero e = []
repeated (suc n) e = e ∷ repeated n e

suc-add : (n m : ℕ) → suc (n + m) ≡ suc n + m
suc-add n m = omega arith

pub append-repeated :
    (es : List Entry) (n m : ℕ) (e : Entry)
    → (es ++ repeated n e) ++ repeated m e ≡ es ++ repeated (n + m) e
append-repeated es zero m e =
    ap (λ l. l ++ repeated m e) (append-nil es) ∙ ap (λ k. es ++ repeated k e) (omega arith)
append-repeated es (suc n) m e =
    ap (λ l. l ++ repeated m e) (sym (append_assoc es (e ∷ []) (repeated n e)))
    ∙ append-repeated (es ++ e ∷ []) n m e
    ∙ append_assoc es (e ∷ []) (repeated (n + m) e)
    ∙ ap (λ k. es ++ repeated k e) (suc-add n m)

-- How often an open channel is in a list of senders.
abbrev pub heard_by : List Channel → ℕ → List ℕ → ℕ
heard_by chs i senders = if is_closed chs i then 0 else count (λ s. eqb s i) senders

-- What one call does to all channels: they stay open or closed, and the message is put behind.
pub record Put (n : ℕ → ℕ) (e : Entry) (chs chs' : List Channel) : Type 0 where
  pub same : (i : ℕ) → is_closed chs' i ≡ is_closed chs i
  pub waits : (i : ℕ) → waiting_in chs' i ≡ waiting_in chs i ++ repeated (n i) e

offer-Put :
    (e : Entry) (sender : ℕ) (chs : List Channel)
    → ((offer e sender chs).0 ≡ not (is_closed chs sender))
      × Put
          (λ i. if is_closed chs i then 0 else (if eqb sender i then 1 else 0))
          e
          chs
          (offer e sender chs).1
unfolding offer send
offer-Put e sender chs = elim (Option-cases (get_elem? chs sender)) [
  | inl out ↦ (
    ground arith,
    record { same = λ i. ground arith; waits = λ i. ground (arith, append-nil (waiting_in chs i)) },
  )
  | inr (c, found) ↦
      let c' : Channel = record c { waiting = c.waiting ++ e ∷ [] } in
      (
        ground (arith),
        record {
          same = λ i. ground (arith, get_elem?-set chs sender i c c' found);
          waits = λ i.
              ground (arith, append-nil (waiting_in chs i), get_elem?-set chs sender i c c' found);
        },
      )
]

pub offer_all-Put :
    (e : Entry) (senders : List ℕ) (chs : List Channel)
    → ((offer_all e senders chs).0 ≡ retain (λ s. not (is_closed chs s)) senders)
      × Put (λ i. heard_by chs i senders) e chs (offer_all e senders chs).1
unfolding offer_all
offer_all-Put e [] chs =
    (refl, record { same = λ i. refl; waits = λ i. ground (arith, append-nil (waiting_in chs i)) })
offer_all-Put e (sender ∷ senders) chs =
    let (kept, one) = offer-Put e sender chs in
    let chs₁ = (offer e sender chs).1 in
    let (rest, more) = offer_all-Put e senders chs₁ in
    (
      rw
          (
            kept,
            rest
                ∙ retain_cong (λ s. not (is_closed chs₁ s)) (λ s. not (is_closed chs s)) senders
                    (λ s. ap not (one.same s)),
          )
          refl,
      record {
        same = λ i. more.same i ∙ one.same i;
        waits = λ i.
            more.waits i
            ∙ ap (λ w. w ++ repeated (heard_by chs₁ i senders) e) (one.waits i)
            ∙ append-repeated (waiting_in chs i)
                (if is_closed chs i then 0 else (if eqb sender i then 1 else 0))
                (heard_by chs₁ i senders) e
            ∙ ap (λ n. waiting_in chs i ++ repeated n e) (ground (arith, one.same i));
      },
    )

pub heard_by-retain :
    (chs : List Channel) (i : ℕ) (senders : List ℕ)
    → heard_by chs i (retain (λ s. not (is_closed chs s)) senders) ≡ heard_by chs i senders
heard_by-retain chs i [] = refl
heard_by-retain chs i (s ∷ senders) = ground (arith, heard_by-retain chs i senders)
