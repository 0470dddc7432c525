-- ===== src/Storage/Connect.antt =====
-- How the database layer connects: `connect_with_retry` and the first part of `Storage::new` of
-- server/src/storage.rs. `connect` gives what the pool of an attempt gives, and `execute` how the
-- statements that create the tables end.
use cipher_mq.Common.{
  ℕ, zero, suc, ◌+◌, ◌≤◌, ◌≡◌, refl, ◌∙◌, inl, inr, false, true, Result-cases, String, Option, none,
  some, [], ◌∷◌, leb, if◌then◌else◌, Result, ok, err, format, arith,
}
use cipher_mq.Storage.{StorageError, postgres}
use cipher_mq.Config.{DatabaseConfig}

-- The address of the database; the port comes as its text.
abbrev pub conn_str : DatabaseConfig → String → String
conn_str config port = format (
    "postgres://" ∷ config.user ∷ ":" ∷ config.password ∷ "@" ∷ config.host ∷ ":" ∷ port ∷ "/"
    ∷ config.dbname ∷ [])

abbrev pub max_attempts : ℕ
max_attempts = 5

module _ {Pool : Type 0} where
  -- The rounds of the loop behind so many attempts: how it ends, and how many attempts were made.
  unfoldable pub connect_from :
      (ℕ → Result String Pool) → ℕ → ℕ → Option (Result StorageError Pool × ℕ)
  connect_from connect zero attempts = none
  connect_from connect (suc fuel) attempts =
      let made = attempts + 1 in
      let again = connect_from connect fuel made in
      elim (connect made) [
        | ok pool ↦ some (ok pool, made)
        | err e ↦ if leb max_attempts made then some (err (postgres e), made) else again
      ]

  -- Five rounds are enough.
  abbrev pub connect_with_retry : (ℕ → Result String Pool) → Option (Result StorageError Pool × ℕ)
  connect_with_retry connect = connect_from connect 5 0

  -- The two statements, with their errors.
  unfoldable pub create_tables :
      (String → Pool → Result String (Unit {0})) → Pool → Result StorageError Pool
  create_tables execute pool = elim (execute "message_metadata" pool) [
    | err e ↦ err (postgres e)
    | ok _ ↦ elim (execute "public_keys" pool) [ err e ↦ err (postgres e) | ok _ ↦ ok pool ]
  ]

  -- What a round does by what its attempt gives.
  attempt_gives :
      (connect : ℕ → Result String Pool) (fuel attempts : ℕ) (pool : Pool)
      → connect (attempts + 1) ≡ ok pool
      → connect_from connect (suc fuel) attempts ≡ some (ok pool, attempts + 1)
  unfolding connect_from
  attempt_gives connect fuel attempts pool gave = rw (connect_from, gave) refl

  attempt_fails :
      (connect : ℕ → Result String Pool) (fuel attempts : ℕ) (e : String)
      → connect (attempts + 1) ≡ err e
      → connect_from connect (suc fuel) attempts ≡ (
          if leb max_attempts (attempts + 1)
          then some (err (postgres e), attempts + 1)
          else connect_from connect fuel (attempts + 1))
  unfolding connect_from
  attempt_fails connect fuel attempts e failed = rw (connect_from, failed) refl

  pub record Ends (connect : ℕ → Result String Pool) (fuel attempts : ℕ) : Type 0 where
    result : Result StorageError Pool
    made : ℕ
    returned : connect_from connect fuel attempts ≡ some (result, made)
    few : made ≤ 5

  pool-Ends :
      (connect : ℕ → Result String Pool) (fuel attempts : ℕ) (pool : Pool)
      → attempts + suc fuel ≡ 5
      → connect (attempts + 1) ≡ ok pool
      → Ends connect (suc fuel) attempts
  pool-Ends connect fuel attempts pool h gave = record {
    result = ok pool;
    made = attempts + 1;
    returned = attempt_gives connect fuel attempts pool gave;
    few = omega arith;
  }

  connect_from-Ends :
      (connect : ℕ → Result String Pool) (fuel attempts : ℕ)
      → attempts + suc fuel ≡ 5
      → Ends connect (suc fuel) attempts
  connect_from-Ends connect zero attempts h = elim (Result-cases (connect (attempts + 1))) [
    | inl (pool, gave) ↦ pool-Ends connect 0 attempts pool h gave
    | inr (e, failed) ↦
        let last : leb max_attempts (attempts + 1) ≡ true = ground arith in
        record {
          result = err (postgres e);
          made = attempts + 1;
          returned = attempt_fails connect 0 attempts e failed ∙ rw last refl;
          few = omega arith;
        }
  ]
  connect_from-Ends connect (suc fuel) attempts h = elim (Result-cases (connect (attempts + 1))) [
    | inl (pool, gave) ↦ pool-Ends connect (suc fuel) attempts pool h gave
    | inr (e, failed) ↦
        let more : leb max_attempts (attempts + 1) ≡ false = ground arith in
        let rest = connect_from-Ends connect fuel (attempts + 1) (omega arith) in
        record {
          result = rest.result;
          made = rest.made;
          returned = attempt_fails connect (suc fuel) attempts e failed ∙ rw more rest.returned;
          few = rest.few;
        }
  ]

  -- The loop comes to its end within five attempts, with a pool or an error.
  pub connect_with_retry-Ends : (connect : ℕ → Result String Pool) → Ends connect 5 0
  connect_with_retry-Ends connect = connect_from-Ends connect 4 0 (omega arith)
