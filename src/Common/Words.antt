-- ===== src/Common/Words.antt =====
-- `strip_prefix` and `replace` of texts, and what `trim` and `splitn` do to texts that are put together.
use Prim.Native.Char.{code}
use Prim.Native.Nat.{ℕ, zero, suc}
use Prim.Native.String
use Prim.Native.String.{String}
use mathlib.Core.Bool.{Bool, true, false, not, ◌&&◌}
use mathlib.Core.List.{[], ◌∷◌}
use mathlib.Core.Option.{Option, none, some}
use mathlib.Core.Path.{◌≡◌, refl, sym, ap, ◌∙◌}
use native.Mathlib.Omega.{arith}
use text.Mathlib.Text.{starts_with}
use text.Mathlib.TextLemmas.{nil-append, cons-append, append-nil}
use cipher_mq.Common.Tests.{eqb, if◌then◌else◌}
use cipher_mq.Common.Text.{is_whitespace, trim_start, trim_end, is_blank, trim, split_space, splitn}

unfoldable pub strip_prefix : String → String → Option String
strip_prefix String.[] s = some s
strip_prefix (String.◌∷◌ p ps) String.[] = none
strip_prefix (String.◌∷◌ p ps) (String.◌∷◌ c s) =
    let rest = strip_prefix ps s in if eqb (code p) (code c) then rest else none

pub strip_prefix-append : (p s : String) → strip_prefix p (String.◌++◌ p s) ≡ some s
unfolding strip_prefix
strip_prefix-append String.[] s = rw (nil-append s) refl
strip_prefix-append (String.◌∷◌ c p) s =
    rw (cons-append c p s) (ground (arith, strip_prefix-append p s))

unfoldable pub chars : String → ℕ
chars String.[] = 0
chars (String.◌∷◌ c s) = suc (chars s)

-- `skip` is what is left of an occurrence that was replaced.
unfoldable pub replace_from : String → String → ℕ → String → String
replace_from pattern by skip String.[] = ""
replace_from pattern by (suc skip) (String.◌∷◌ c s) = replace_from pattern by skip s
replace_from pattern by zero (String.◌∷◌ c s) = elim (starts_with (String.◌∷◌ c s) pattern) [
  | true ↦ String.◌++◌ by (elim (chars pattern) [ zero ↦ "" | suc n ↦ replace_from pattern by n s ])
  | false ↦ String.◌∷◌ c (replace_from pattern by 0 s)
]

-- `replace`, for a pattern that is not empty: the occurrences from the left that do not overlap.
unfoldable pub replace : String → String → String → String
unfolding replace_from chars
replace pattern by s = replace_from pattern by 0 s

-- A text without white space.
unfoldable pub is_word : String → Bool
is_word String.[] = true
is_word (String.◌∷◌ c s) = not (is_whitespace (code c)) && is_word s

-- A text whose first character is not white space.
abbrev pub starts_solid : String → Bool
starts_solid String.[] = false
starts_solid (String.◌∷◌ c s) = not (is_whitespace (code c))

-- A text whose last character is not white space.
unfoldable pub ends_solid : String → Bool
ends_solid String.[] = false
ends_solid (String.◌∷◌ c String.[]) = not (is_whitespace (code c))
ends_solid (String.◌∷◌ c (String.◌∷◌ d s)) = ends_solid (String.◌∷◌ d s)

pub starts_solid-append :
    (s t : String) → starts_solid s ≡ true → starts_solid (String.◌++◌ s t) ≡ true
starts_solid-append String.[] t h = ground arith
starts_solid-append (String.◌∷◌ c s) t h = rw (cons-append c s t) h

pub ends_solid-cons :
    (c : _) (s : String) → ends_solid s ≡ true → ends_solid (String.◌∷◌ c s) ≡ true
unfolding ends_solid
ends_solid-cons c String.[] h = ground arith
ends_solid-cons c (String.◌∷◌ d s) h = h

pub ends_solid-append : (s t : String) → ends_solid t ≡ true → ends_solid (String.◌++◌ s t) ≡ true
unfolding ends_solid
ends_solid-append String.[] t h = rw (nil-append t) h
ends_solid-append (String.◌∷◌ c s) t h =
    rw (cons-append c s t) (ends_solid-cons c (String.◌++◌ s t) (ends_solid-append s t h))

trim_start-solid : (s : String) → starts_solid s ≡ true → trim_start s ≡ s
unfolding trim_start
trim_start-solid String.[] h = refl
trim_start-solid (String.◌∷◌ c s) h = ground arith

trim_end-blank : (t : String) → is_blank t ≡ true → trim_end t ≡ ""
unfolding trim_end is_blank
trim_end-blank String.[] h = refl
trim_end-blank (String.◌∷◌ c t) h = ground arith

is_blank-ends_solid : (s t : String) → ends_solid s ≡ true → is_blank (String.◌++◌ s t) ≡ false
unfolding ends_solid is_blank
is_blank-ends_solid String.[] t h = ground arith
is_blank-ends_solid (String.◌∷◌ c String.[]) t h = rw (cons-append c "" t) (ground arith)
is_blank-ends_solid (String.◌∷◌ c (String.◌∷◌ d s)) t h =
    rw (cons-append c (String.◌∷◌ d s) t) (ground (arith, is_blank-ends_solid (String.◌∷◌ d s) t h))

trim_end-append :
    (s t : String) → ends_solid s ≡ true → is_blank t ≡ true → trim_end (String.◌++◌ s t) ≡ s
unfolding trim_end ends_solid is_blank
trim_end-append String.[] t h b = ground arith
trim_end-append (String.◌∷◌ c String.[]) t h b =
    rw (cons-append c "" t, nil-append t) (ground (arith, trim_end-blank t b))
trim_end-append (String.◌∷◌ c (String.◌∷◌ d s)) t h b = rw (cons-append c (String.◌∷◌ d s) t) (
    ground
      (arith, trim_end-append (String.◌∷◌ d s) t h b, is_blank-ends_solid (String.◌∷◌ d s) t h))

-- White space behind a text that is solid at both ends is what `trim` takes away.
pub trim-append :
    (s t : String)
    → starts_solid s ≡ true
    → ends_solid s ≡ true
    → is_blank t ≡ true
    → trim (String.◌++◌ s t) ≡ s
unfolding trim
trim-append s t h e b =
    ap trim_end (trim_start-solid (String.◌++◌ s t) (starts_solid-append s t h))
    ∙ trim_end-append s t e b

pub trim-solid : (s : String) → starts_solid s ≡ true → ends_solid s ≡ true → trim s ≡ s
unfolding is_blank
trim-solid s h e = ap trim (sym (append-nil s)) ∙ trim-append s "" h e refl

is_whitespace-space : is_whitespace 32 ≡ true
unfolding is_whitespace
is_whitespace-space = refl

pub trim-space : (s : String) → trim (String.◌++◌ " " s) ≡ trim s
unfolding trim trim_start
trim-space s = rw (cons-append " " "" s, nil-append s) refl

-- A word and the space behind it.
pub split_space-word :
    (w s : String)
    → is_word w ≡ true
    → split_space (String.◌++◌ w (String.◌++◌ " " s)) ≡ (w, some s)
unfolding split_space is_word
split_space-word String.[] s h =
    rw (nil-append (String.◌++◌ " " s), cons-append " " "" s, nil-append s) refl
split_space-word (String.◌∷◌ c w) s h =
    let rest : is_word w ≡ true = ground arith in
    let solid : is_whitespace (code c) ≡ false = ground arith in
    let other : eqb (code c) 32 ≡ false = ground (arith, is_whitespace-space) in
    rw (cons-append c w (String.◌++◌ " " s)) (ground (arith, split_space-word w s rest))

pub splitn-word :
    (n : ℕ) (w s : String)
    → is_word w ≡ true
    → splitn (suc (suc n)) (String.◌++◌ w (String.◌++◌ " " s)) ≡ w ∷ splitn (suc n) s
unfolding splitn
splitn-word n w s h =
    ap
      (λ (p : String × Option String). elim (p.1) [
        | none ↦ p.0 ∷ []
        | some r ↦ p.0 ∷ splitn (suc n) r
      ])
      (split_space-word w s h)
