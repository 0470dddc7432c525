-- ===== src/Clients/Console.antt =====
-- clients/admin: the data of the node and the state of the dashboard (src/main.rs), and the loop that asks the
-- server for it (src/poll.rs). `D` is what the JSON of the server says but for the fields that the poll sets.
use cipher_mq.Common.{
  ℕ, String, Bool, true, false, Option, none, some, List, [], ◌∷◌, ◌==◌, if◌then◌else◌, eqb, Result,
  ok, err, ◌>>=◌, map_err, format, trim,
}

-- The node, with its health and the fields that the poll sets.
pub record NodeData (D : Type 0) : Type 0 where
  pub data_of : D
  pub health : String
  pub reachable : Bool
  pub last_update : String

-- A read of one byte: the byte, the end, or an error.
pub data Byte : Type 0 where
  byte : ℕ → Byte
  end : Byte
  fails : String → Byte

-- The banner up to its line end, and what is read behind it; `none` where the reads have run out.
unfoldable pub read_banner : List Byte → Option (Result String (List ℕ))
read_banner [] = none
read_banner (end ∷ bytes) = some (err "server closed during banner")
read_banner (fails e ∷ bytes) = some (err (format ("banner read error: " ∷ e ∷ [])))
read_banner (byte b ∷ bytes) =
    let rest = read_banner bytes in
    if eqb b 10 then some (ok (b ∷ [])) else elim rest [
      | none ↦ none
      | some (ok banner) ↦ some (ok (b ∷ banner))
      | some (err e) ↦ some (err e)
    ]

-- What becomes of a command: its text is written, flushed, and a line is read.
pub record Exchange : Type 0 where
  pub written : Result String (Unit {0})
  pub flushed : Result String (Unit {0})
  pub line : Result String String

unfoldable pub query : Exchange → Result String String
query x = map_err (λ e. format ("write error: " ∷ e ∷ [])) x.written >>= λ _.
    map_err (λ e. format ("flush error: " ∷ e ∷ [])) x.flushed >>= λ _.
    map_err (λ e. format ("read error: " ∷ e ∷ [])) x.line >>= λ response.
    if response == "" then err "server closed connection" else ok (trim response)

module _ {D : Type 0} (from_str : String → Result String (NodeData D)) where
  -- What an answer makes of the node; `now` is the text of the time. An answer that is not understood is only
  -- logged.
  unfoldable pub update : String → String → NodeData D → NodeData D
  update response now node = elim (from_str response) [
    | ok node_data ↦ record node_data { reachable = true; last_update = now }
    | err e ↦ node
  ]

  -- A session after its banner, on its exchanges and their times: the node, and the error that ended it.
  unfoldable pub poll : List (Exchange × String) → NodeData D → Option String × NodeData D
  unfolding query update
  poll [] node = (none, node)
  poll ((x, now) ∷ rounds) node = elim (query x) [
    | ok response ↦ poll rounds (update response now node)
    | err e ↦ (some e, node)
  ]

  -- A session, on what connecting gave.
  unfoldable pub run_session :
      Result String (Unit {0}) → List (Exchange × String) → NodeData D → Option String × NodeData D
  unfolding poll
  run_session (err e) rounds node = (some e, node)
  run_session (ok _) rounds node = poll rounds node

  abbrev pub mark_unreachable : String → NodeData D → NodeData D
  mark_unreachable now node = record node {
    reachable = false;
    health = "unreachable";
    last_update = now;
  }

  -- The sessions that end, one after the other, each with the time of its end.
  unfoldable pub poll_loop :
      List (Result String (Unit {0}) × List (Exchange × String) × String) → NodeData D → NodeData D
  unfolding run_session
  poll_loop [] node = node
  poll_loop ((connected, rounds, now) ∷ sessions) node =
      poll_loop sessions (mark_unreachable now (run_session connected rounds node).1)
