-- ===== src/Base/Strconv.antt =====
-- Go's integers and the parts of strconv that read settings: `Atoi` and `ParseBool`. An `int` has 64
-- bits.
use Prim.Native.Nat.{ℕ, zero, suc, ◌+◌, ◌-◌, ◌*◌, ◌/◌, ◌%◌, ◌^◌, ◌<◌}
use mathlib.Core.Path.{◌≡◌, refl, ◌∙◌}
use mathlib.Core.Logic.{inl, inr}
use mathlib.Core.Bool.{Bool, true, false, ◌&&◌, ◌||◌}
use mathlib.Core.Option.{Option, none, some}
use mathlib.Core.List.{[], ◌∷◌, ◌++◌}
use native.Mathlib.Omega.{arith}
use go_message_dispatcher.Base.Tests.{ltb, leb, ◌==◌, if◌then◌else◌, Bool-cases}
use go_message_dispatcher.Base.Bytes.{Text, bytes, is_empty, text_eq, itoa, itoa_fuel}

pub data ℤ : Type 0 where
  pos : ℕ → ℤ
  negsuc : ℕ → ℤ  -- `negsuc n` is −(n + 1)

-- `i > 0`
abbrev pub is_positive : ℤ → Bool
is_positive (pos zero) = false
is_positive (pos (suc _)) = true
is_positive (negsuc _) = false

abbrev pub negated : ℕ → ℤ
negated zero = pos zero
negated (suc n) = negsuc n

-- `%d`
abbrev pub format_int : ℤ → Text
format_int (pos n) = itoa n
format_int (negsuc n) = b'-' ∷ itoa (suc n)

abbrev is_digit : ℕ → Bool
is_digit c = leb b'0' c && leb c b'9'

unfoldable pub parse_digits : ℕ → Text → Option ℕ
parse_digits acc [] = some acc
parse_digits acc (c ∷ cs) =
    let rest = parse_digits (acc * 10 + (c - b'0')) cs in if is_digit c then rest else none

-- At least one digit is wanted.
abbrev magnitude : Text → Option ℕ
magnitude [] = none
magnitude (c ∷ cs) = parse_digits 0 (c ∷ cs)

abbrev non_negative : Option ℕ → Option ℤ
non_negative none = none
non_negative (some n) = if ltb n (2 ^ 63) then some (pos n) else none

abbrev negative : Option ℕ → Option ℤ
negative none = none
negative (some n) = if leb n (2 ^ 63) then some (negated n) else none

-- `strconv.Atoi`
unfoldable pub atoi : Text → Option ℤ
unfolding parse_digits
atoi [] = none
atoi (c ∷ cs) =
    if c == b'+'
    then non_negative (magnitude cs)
    else if c == b'-'
    then negative (magnitude cs)
    else non_negative (magnitude (c ∷ cs))

-- `strconv.ParseBool`
unfoldable pub parse_bool : Text → Option Bool
parse_bool t =
    if text_eq t (bytes "1")
      || text_eq t (bytes "t")
      || text_eq t (bytes "T")
      || text_eq t (bytes "TRUE")
      || text_eq t (bytes "true")
      || text_eq t (bytes "True")
    then some true
    else if text_eq t (bytes "0")
        || text_eq t (bytes "f")
        || text_eq t (bytes "F")
        || text_eq t (bytes "FALSE")
        || text_eq t (bytes "false")
        || text_eq t (bytes "False")
    then some false
    else none

abbrev add_digit : Option ℕ → ℕ → Option ℕ
add_digit none c = none
add_digit (some v) c = if is_digit c then some (v * 10 + (c - b'0')) else none

parse_digits-append :
    (acc : ℕ) (s : Text) (c : ℕ) → parse_digits acc (s ++ c ∷ []) ≡ add_digit (parse_digits acc s) c
unfolding parse_digits
parse_digits-append acc [] c = refl
parse_digits-append acc (d ∷ s) c = elim (Bool-cases (is_digit d)) [
  | inl e ↦ rw e (parse_digits-append (acc * 10 + (d - b'0')) s c)
  | inr e ↦ rw e refl
]

parse_digits-itoa_fuel : (f n : ℕ) → n < f → parse_digits 0 (itoa_fuel f n) ≡ some n
unfolding itoa_fuel parse_digits
parse_digits-itoa_fuel zero n h = absurd (omega arith)
parse_digits-itoa_fuel (suc f) n h = elim (Bool-cases (ltb n 10)) [
  | inl small ↦ rw small (ground arith)
  | inr large ↦
      let ih = parse_digits-itoa_fuel f (n / 10) (ground arith) in
      rw (large, parse_digits-append 0 (itoa_fuel f (n / 10)) (b'0' + n % 10), ih) (ground arith)
]

is_empty-append : (s : Text) (c : ℕ) → is_empty (s ++ c ∷ []) ≡ false
is_empty-append [] c = refl
is_empty-append (d ∷ s) c = refl

pub is_empty-itoa : (n : ℕ) → is_empty (itoa n) ≡ false
unfolding itoa itoa_fuel
is_empty-itoa n = elim (Bool-cases (ltb n 10)) [
  | inl small ↦ rw small refl
  | inr large ↦ rw large (is_empty-append (itoa_fuel n (n / 10)) (b'0' + n % 10))
]

atoi_digits :
    (t : Text) (n : ℕ)
    → is_empty t ≡ false
    → parse_digits 0 t ≡ some n
    → atoi t ≡ non_negative (some n)
unfolding atoi parse_digits
atoi_digits [] n e h = absurd (cc)
atoi_digits (c ∷ cs) n e h = elim (Bool-cases (is_digit c)) [
  | inl d ↦
      let plus : (c == b'+') ≡ false = ground arith in
      let minus : (c == b'-') ≡ false = ground arith in rw (plus, minus, h) refl
  | inr d ↦ absurd (cc (rw d at h))
]

-- A number is read back from its decimal digits.
pub atoi-itoa : (n : ℕ) → n < 2 ^ 63 → atoi (itoa n) ≡ some (pos n)
unfolding itoa
atoi-itoa n h =
    atoi_digits (itoa n) n (is_empty-itoa n) (parse_digits-itoa_fuel (suc n) n (omega arith))
    ∙ ground arith
