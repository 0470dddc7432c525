-- ===== src/Common/Tables.antt =====
-- `HashMap` and `DashMap` with text keys, as association lists. Of two entries with one key the
-- first counts; every operation below acts on all of them, so nothing needs the keys distinct.
use Prim.Native.Nat.{◌≤◌}
use Prim.Native.String.{String}
use mathlib.Core.Path.{◌≡◌, refl, sym, subst}
use mathlib.Core.Logic.{inl, inr}
use mathlib.Core.Bool.{Bool, true, false, ◌||◌}
use mathlib.Core.List.{List, [], ◌∷◌, map}
use mathlib.Core.Option
use mathlib.Core.Option.{Option, none, some}
use native.Mathlib.Omega.{arith}
use text.Mathlib.Text.{◌==◌}
use text.Mathlib.TextEquality.{eq_iff}
use text.Mathlib.TextPositions.{eq_refl}
use cipher_mq.Common.Tests.{if◌then◌else◌, Bool-cases}
use cipher_mq.Common.Lists.{All, Distinct, contains, length}

abbrev pub Table {ℓ} : Type ℓ → Type ℓ
Table V = List (String × V)

module _ {ℓ} {V : Type ℓ} where
  unfoldable pub get : String → Table V → Option V
  get k [] = none
  get k ((j, v) ∷ m) = if j == k then some v else get k m

  abbrev pub is_some : Option V → Bool
  is_some none = false
  is_some (some _) = true

  abbrev pub contains_key : String → Table V → Bool
  contains_key k m = is_some (get k m)

  -- `insert`: an entry in place is overwritten.
  unfoldable pub insert : String → V → Table V → Table V
  insert k v [] = (k, v) ∷ []
  insert k v ((j, w) ∷ m) = if j == k then (k, v) ∷ m else (j, w) ∷ insert k v m

  unfoldable pub remove : String → Table V → Table V
  remove k [] = []
  remove k ((j, v) ∷ m) = let rest = remove k m in if j == k then rest else (j, v) ∷ rest

  -- `get_mut`, and what is then done to the value; nothing without the key.
  unfoldable pub modify : String → (V → V) → Table V → Table V
  modify k f [] = []
  modify k f ((j, v) ∷ m) = (j, if j == k then f v else v) ∷ modify k f m

  -- `entry(k).or_insert_with(|| v)`
  unfoldable pub or_insert : String → V → Table V → Table V
  or_insert k v m = if contains_key k m then m else insert k v m

  -- `values()` and `keys()`
  abbrev pub values : Table V → List V
  values m = map (λ e. e.1) m

  abbrev pub keys : Table V → List String
  keys m = map (λ e. e.0) m

  pub get-insert :
      (j k : String) (v : V) (m : Table V)
      → get j (insert k v m) ≡ (if k == j then some v else get j m)
  unfolding get insert
  get-insert j k v [] = refl
  get-insert j k v ((i, w) ∷ m) =
      ground (arith, eq_iff k j, eq_iff i k, eq_iff i j, get-insert j k v m)

  pub get-remove :
      (j k : String) (m : Table V) → get j (remove k m) ≡ (if k == j then none else get j m)
  unfolding get remove
  get-remove j k [] = ground arith
  get-remove j k ((i, w) ∷ m) = ground (arith, eq_iff k j, eq_iff i k, eq_iff i j, get-remove j k m)

  pub get-modify :
      (j k : String) (f : V → V) (m : Table V)
      → get j (modify k f m) ≡ (if k == j then Option.map f (get j m) else get j m)
  unfolding get modify
  get-modify j k f [] = ground arith
  get-modify j k f ((i, w) ∷ m) =
      ground (arith, eq_iff k j, eq_iff i k, eq_iff i j, get-modify j k f m)

  pub get-or_insert :
      (j k : String) (v : V) (m : Table V)
      → get j (or_insert k v m) ≡ (if k == j then some (Option.get_or (get k m) v) else get j m)
  unfolding or_insert
  get-or_insert j k v m = ground (arith, eq_iff k j, get-insert j k v m)

  pub or_insert_found :
      (k : String) (v w : V) (m : Table V) → get k m ≡ some v → or_insert k w m ≡ m
  unfolding or_insert
  or_insert_found k v w m h = rw (h, or_insert)

  pub get-insert_self : (k : String) (v : V) (m : Table V) → get k (insert k v m) ≡ some v
  get-insert_self k v m = simp (get-insert, eq_refl)

  pub get-remove_self : (k : String) (m : Table V) → get k (remove k m) ≡ none
  get-remove_self k m = simp (get-remove, eq_refl)

  -- A key, once there, stays through everything but its own removal.
  pub contains_key-insert :
      (j k : String) (v : V) (m : Table V)
      → contains_key j (insert k v m) ≡ (k == j || contains_key j m)
  contains_key-insert j k v m = ground (arith, get-insert j k v m)

  pub contains_key-modify :
      (j k : String) (f : V → V) (m : Table V) → contains_key j (modify k f m) ≡ contains_key j m
  contains_key-modify j k f m = ground (arith, get-modify j k f m)

  pub length-remove-le : (k : String) (m : Table V) → length (remove k m) ≤ length m
  unfolding remove
  length-remove-le k [] = omega arith
  length-remove-le k ((j, v) ∷ m) = ground (arith, length-remove-le k m)

  -- The keys whose value passes a test: `iter().filter(…).map(key).collect()`.
  unfoldable pub keys_where : (V → Bool) → Table V → List String
  keys_where p [] = []
  keys_where p ((j, v) ∷ m) = let rest = keys_where p m in if p v then j ∷ rest else rest

  -- `for k in ks { m.remove(k) }`
  unfoldable pub remove_all : List String → Table V → Table V
  remove_all [] m = m
  remove_all (k ∷ ks) m = remove_all ks (remove k m)

  pub get-remove_all :
      (q : String) (ks : List String) (m : Table V)
      → get q (remove_all ks m) ≡ (if contains q ks then none else get q m)
  unfolding remove_all
  get-remove_all q [] m = refl
  get-remove_all q (k ∷ ks) m = ground (arith, get-remove_all q ks (remove k m), get-remove q k m)

  -- A test on a value that may be missing.
  abbrev pub passes : (V → Bool) → Option V → Bool
  passes p none = false
  passes p (some v) = p v

  contains-keys_where_absent :
      (p : V → Bool) (q : String) (m : Table V)
      → contains q (keys m) ≡ false
      → contains q (keys_where p m) ≡ false
  unfolding keys_where
  contains-keys_where_absent p q [] h = refl
  contains-keys_where_absent p q ((j, v) ∷ m) h = ground (arith, contains-keys_where_absent p q m)

  -- With distinct keys, a key is among them exactly when its value passes.
  pub contains-keys_where :
      (p : V → Bool) (q : String) (m : Table V)
      → Distinct (keys m)
      → contains q (keys_where p m) ≡ passes p (get q m)
  unfolding keys_where get
  contains-keys_where p q [] d = refl
  contains-keys_where p q ((j, v) ∷ m) d =
      ground (arith, eq_iff j q, contains-keys_where p q m d.1, contains-keys_where_absent p q m)

-- A predicate on every entry, kept by each operation.
module _ {ℓ κ} {V : Type ℓ} (P : String × V → Type κ) where
  pub All-get : (k : String) (v : V) (m : Table V) → All P m → get k m ≡ some v → P (k, v)
  unfolding get
  All-get k v [] h e = absurd (cc)
  All-get k v ((j, w) ∷ m) h e = elim (Bool-cases (j == k)) [
    | inl same ↦ let e' : w ≡ v = ground arith in rw (← (eq_iff j k).0 same, ← e') h.0
    | inr other ↦ All-get k v m h.1 (ground arith)
  ]

  pub All-insert : (k : String) (v : V) (m : Table V) → P (k, v) → All P m → All P (insert k v m)
  unfolding insert
  All-insert k v [] p h = (p, tt)
  All-insert k v ((j, w) ∷ m) p h = ground (arith, All-insert k v m p h.1)

  pub All-remove : (k : String) (m : Table V) → All P m → All P (remove k m)
  unfolding remove
  All-remove k [] h = tt
  All-remove k ((j, w) ∷ m) h = ground (arith, All-remove k m h.1)

  pub All-modify :
      (k : String) (f : V → V) (m : Table V)
      → ((v : V) → P (k, v) → P (k, f v))
      → All P m
      → All P (modify k f m)
  unfolding modify
  All-modify k f [] keep h = tt
  All-modify k f ((j, w) ∷ m) keep h = elim (Bool-cases (j == k)) [
    | inl same ↦
        let e : j ≡ k = (eq_iff j k).0 same in
        rw same (
          subst (λ i. P (i, f w)) (sym e) (keep w (subst (λ i. P (i, w)) e h.0)),
          All-modify k f m keep h.1,
        )
    | inr other ↦ rw other (h.0, All-modify k f m keep h.1)
  ]

  pub All-or_insert :
      (k : String) (v : V) (m : Table V) → P (k, v) → All P m → All P (or_insert k v m)
  unfolding or_insert
  All-or_insert k v m p h = ground (arith, All-insert k v m p h)
