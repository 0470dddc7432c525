-- ===== src/Clients/Receiver/Reconnect.antt =====
-- A connection of the receiver from the handshake to the cleanup (`receive_loop`), and the loop of `main` that
-- connects again: clients/receiver_1/src/main.rs.
use cipher_mq.Common.{
  ℕ, suc, ◌+◌, ◌≡◌, refl, ◌∙◌, ap, String, Bool, true, false, ◌&&◌, List, [], ◌∷◌, ◌++◌,
  if◌then◌else◌, length, All, Result, ok, err, arith,
}
use cipher_mq.Clients.Primitives.{Bytes, Primitives}
use cipher_mq.Clients.Receiver.Handshake.{Config, handshake}
use cipher_mq.Clients.Receiver.{
  EncryptedEnvelope, Receiver, Round, continues, stops, crashes, Read, receive_loop,
}

-- How the whole of `receive_loop` ends.
pub data End : Type 0 where
  returned failed crashed : End

-- One attempt to connect: where there is a connection, how it answers the handshake's commands and takes the one
-- without an answer, what the file of the public key gives, and what is read then. The last is whether
-- `running` was set when the attempt was over, for an attempt that did not clear it.
pub data Attempt : Type 0 where
  tcp_fails tls_fails : Bool → Attempt
  connects :
      (send : String → Result String String) (write : String → Result String (Unit {0}))
      (pub_bytes : Result String Bytes) (reads : List Read) (running : Bool)
      → Attempt

-- What the attempts were so far, and `running`.
pub record Client : Type 0 where
  pub running : Bool
  pub attempts : ℕ
  pub receiver : Receiver
  pub crashed : Bool

abbrev pub end_of : Round → End
end_of crashes = crashed
end_of stops = returned
end_of continues = returned

abbrev pub is_crash : End → Bool
is_crash crashed = true
is_crash returned = false
is_crash failed = false

module _ (p : Primitives) (from_str : String → Result String EncryptedEnvelope) (config : Config)
    (private_key : Bytes) where
  -- What follows the handshake: `ok true` where it is through, `ok false` where the server refused the key,
  -- and an error where anything in it failed, before or behind the answer about the key. A connection starts with no processed ids. The cleanup behind the loop clears `running`; an error of
  -- the handshake returns before it.
  unfoldable pub session : Result String Bool → List Read → Bool → Receiver → End × Bool × Receiver
  unfolding receive_loop
  session (err e) reads running r = (failed, running, r)
  session (ok false) reads running r = (failed, false, r)
  session (ok true) reads running r =
      let (end, r₁) =
        receive_loop p from_str private_key reads
          (record r { processed = []; acks = []; acks_open = true }) in
      (end_of end, false, r₁)

  unfoldable pub attempt : Attempt → Client → Client
  unfolding session
  attempt (tcp_fails running) c = record c { running = running; attempts = c.attempts + 1 }
  attempt (tls_fails running) c = record c { running = running; attempts = c.attempts + 1 }
  attempt (connects send write pub_bytes reads running) c =
      let (end, still, r) =
        session (handshake send write p config pub_bytes) reads running c.receiver in
      record { running = still; attempts = c.attempts + 1; receiver = r; crashed = is_crash end }

  -- The loop of `main` while `running` is set, on the attempts that would be made.
  unfoldable pub connection_loop : List Attempt → Client → Client
  unfolding attempt
  connection_loop [] c = c
  connection_loop (a ∷ left) c =
      let rest = connection_loop left (attempt a c) in if c.running then rest else c

module _ (p : Primitives) (from_str : String → Result String EncryptedEnvelope) (config : Config)
    (private_key : Bytes) where
  abbrev is_error : Result String Bool → Bool
  is_error (err e) = true
  is_error (ok registered) = false

  -- An attempt that fails before its handshake is over, while nothing asked the program to stop.
  abbrev pub has_failed : Attempt → Bool
  has_failed (tcp_fails running) = running
  has_failed (tls_fails running) = running
  has_failed (connects send write pub_bytes reads running) =
      is_error (handshake send write p config pub_bytes) && running

  no_attempts : (n : ℕ) → n + 1 ≡ n + 0 + 1
  no_attempts n = ground arith

  more_attempts : (n k : ℕ) → n + 1 + k + 1 ≡ n + suc k + 1
  more_attempts n k = ground arith

  stopped_lem :
      (as_left : List Attempt) (c : Client)
      → c.running ≡ false
      → connection_loop p from_str config private_key as_left c ≡ c
  unfolding connection_loop
  stopped_lem [] c h = refl
  stopped_lem (a ∷ left) c h = rw h refl

  running_lem :
      (a : Attempt) (left : List Attempt) (c : Client)
      → c.running ≡ true
      → connection_loop p from_str config private_key (a ∷ left) c
        ≡ connection_loop p from_str config private_key left
            (attempt p from_str config private_key a c)
  unfolding connection_loop
  running_lem a left c h =
      ap
        (λ b.
          if b
          then connection_loop p from_str config private_key left
              (attempt p from_str config private_key a c)
          else c)
        h

  session-stops :
      (registered : Bool) (reads : List Read) (running : Bool) (r : Receiver)
      → (session p from_str config private_key (ok registered) reads running r).1 ≡ false
  unfolding session
  session-stops true reads running r = refl
  session-stops false reads running r = refl

  session-runs :
      (hello : Result String Bool) (reads : List Read) (running : Bool) (r : Receiver)
      → (is_error hello && running) ≡ true
      → (session p from_str config private_key hello reads running r).1 ≡ true
  unfolding session
  session-runs (err e) reads running r h = h
  session-runs (ok registered) reads running r h = absurd (ground arith)

  answered-stops :
      (send : String → Result String String) (write : String → Result String (Unit {0}))
      (pub_bytes : Result String Bytes) (registered : Bool) (reads : List Read) (running : Bool)
      (c : Client)
      → handshake send write p config pub_bytes ≡ ok registered
      → (attempt p from_str config private_key
          (connects send write pub_bytes reads running)
          c).running
        ≡ false
  unfolding attempt
  answered-stops send write pub_bytes registered reads running c h =
      ap (λ hello. (session p from_str config private_key hello reads running c.receiver).1) h
      ∙ session-stops registered reads running c.receiver

  answered-attempts :
      (a : Attempt) (c : Client)
      → (attempt p from_str config private_key a c).attempts ≡ c.attempts + 1
  unfolding attempt
  answered-attempts (tcp_fails running) c = refl
  answered-attempts (tls_fails running) c = refl
  answered-attempts (connects send write pub_bytes reads running) c = refl

  failed-runs :
      (a : Attempt) (c : Client)
      → has_failed a ≡ true
      → (attempt p from_str config private_key a c).running ≡ true
  unfolding attempt
  failed-runs (tcp_fails running) c h = h
  failed-runs (tls_fails running) c h = h
  failed-runs (connects send write pub_bytes reads running) c h =
      session-runs (handshake send write p config pub_bytes) reads running c.receiver h

  -- Attempts that fail, when they connect or anywhere in the handshake, before or behind the server's answer about
  -- the key, are made again while nothing asks the program to stop; the first one whose handshake is through, or
  -- whose key the server refuses, is the last, however its connection ends afterwards and whatever would
  -- follow.
  pub connection_loop-once :
      (before : List Attempt) (send : String → Result String String)
      (write : String → Result String (Unit {0})) (pub_bytes : Result String Bytes)
      (registered : Bool) (reads : List Read) (running : Bool) (after : List Attempt) (c : Client)
      → c.running ≡ true
      → All (λ a. has_failed a ≡ true) before
      → handshake send write p config pub_bytes ≡ ok registered
      → let done =
          connection_loop p from_str config private_key
            (before ++ connects send write pub_bytes reads running ∷ after)
            c in
        (done.running ≡ false) × (done.attempts ≡ c.attempts + length before + 1)
  connection_loop-once [] send write pub_bytes registered reads running after c h v answered =
      let last = connects send write pub_bytes reads running in
      let stopped = answered-stops send write pub_bytes registered reads running c answered in
      let done = stopped_lem after (attempt p from_str config private_key last c) stopped in
      rw (running_lem last after c h, done)
        (stopped, answered-attempts last c ∙ no_attempts c.attempts)
  connection_loop-once (a ∷ before) send write pub_bytes registered reads running after c h v
        answered =
      let rest =
        connection_loop-once before send write pub_bytes registered reads running after
          (attempt p from_str config private_key a c) (failed-runs a c v.0) v.1 answered in
      rw (running_lem a (before ++ connects send write pub_bytes reads running ∷ after) c h)
        (rest.0, rest.1 ∙ rw (answered-attempts a c) (more_attempts c.attempts (length before)))
