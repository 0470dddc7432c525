-- ===== src/Makers.antt =====
-- The programs under create_ca_key/ that make keys and certificates, and the files that they write. A directory
-- tree is a table of texts by their paths, as the programs spell them; `refuse` gives the error of a call on a path.
pub mod Keys
pub mod Certificates
use cipher_mq.Common.{String, Option, none, some, Table, get, insert, Result, ok, err}

abbrev pub Files : Type 0
Files = Table String

-- A call on the files, or several: its result and the files.
abbrev pub Action : Type 0
Action = Files → Result String (Unit {0}) × Files

module _ (refuse : String → Option String) where
  -- `fs::write`
  unfoldable pub write : String → String → Action
  write path text files = elim (refuse path) [
    | none ↦ (ok tt, insert path text files)
    | some e ↦ (err e, files)
  ]

  -- `fs::copy`
  unfoldable pub copy : String → String → Action
  unfolding write
  copy source target files = elim (get source files) [
    | none ↦ (err "No such file or directory", files)
    | some text ↦ write target text files
  ]

  -- `create_dir_all`; a directory has no text.
  unfoldable pub create_dir_all : String → Action
  create_dir_all path files = elim (refuse path) [ none ↦ (ok tt, files) | some e ↦ (err e, files) ]

-- `?` between two steps.
unfoldable pub and_then :
    Result String (Unit {0}) × Files → Action → Result String (Unit {0}) × Files
and_then (ok _, files) next = next files
and_then (err e, files) next = (err e, files)
