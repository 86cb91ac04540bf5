-- ===== src/Base/Bytes.antt =====
-- Go's strings, as lists of bytes (`len` counts bytes), their comparison, and `strconv.Itoa`.
use Prim.Native.Nat.{ℕ, zero, suc, ◌+◌, ◌-◌, ◌*◌, ◌/◌, ◌%◌, ◌<◌}
use Prim.Native.Char.{code}
use Prim.Native.String.{String}
use mathlib.Core.Path.{◌≡◌, refl, sym, ◌∙◌, ap}
use mathlib.Core.Logic.{◌↔◌, inl, inr}
use mathlib.Core.Bool.{Bool, true, false, ◌&&◌}
use mathlib.Core.List.{List, [], ◌∷◌, ◌++◌}
use native.Mathlib.Omega.{arith}
use go_message_dispatcher.Base.Tests.{ltb, ◌==◌, if◌then◌else◌, Bool-cases}

abbrev pub Text : Type 0
Text = List ℕ

-- The bytes of an ASCII literal.
abbrev pub bytes : String → Text
bytes String.[] = []
bytes (String.◌∷◌ c s) = code c ∷ bytes s

-- `s == ""`
abbrev pub is_empty : Text → Bool
is_empty [] = true
is_empty (_ ∷ _) = false

-- `s == t`
abbrev pub text_eq : Text → Text → Bool
text_eq [] [] = true
text_eq [] (_ ∷ _) = false
text_eq (_ ∷ _) [] = false
text_eq (a ∷ s) (b ∷ t) = a == b && text_eq s t

pub text_eq→eq : (s t : Text) → text_eq s t ≡ true → s ≡ t
text_eq→eq [] [] h = refl
text_eq→eq [] (_ ∷ _) h = ground arith
text_eq→eq (_ ∷ _) [] h = ground arith
text_eq→eq (a ∷ s) (b ∷ t) h = ground (arith, text_eq→eq s t)

pub text_eq_refl : (s : Text) → text_eq s s ≡ true
text_eq_refl [] = refl
text_eq_refl (a ∷ s) = ground (arith, text_eq_refl s)

pub text_eq_iff : (s t : Text) → (text_eq s t ≡ true) ↔ (s ≡ t)
text_eq_iff s t = (text_eq→eq s t, λ e. ap (text_eq s) (sym e) ∙ text_eq_refl s)

-- Decimal digits, most significant first; the fuel exceeds the number.
unfoldable pub itoa_fuel : ℕ → ℕ → Text
itoa_fuel zero n = []
itoa_fuel (suc f) n =
    let rest = itoa_fuel f (n / 10) in
    if ltb n 10 then (b'0' + n) ∷ [] else rest ++ (b'0' + n % 10) ∷ []

-- `strconv.Itoa(n)` and `%d`, of a number that is not negative.
unfoldable pub itoa : ℕ → Text
unfolding itoa_fuel
itoa n = itoa_fuel (suc n) n

digits_value : ℕ → Text → ℕ
digits_value acc [] = acc
digits_value acc (c ∷ cs) = digits_value (acc * 10 + (c - b'0')) cs

digits_value-append :
    (acc : ℕ) (s : Text) (c : ℕ)
    → digits_value acc (s ++ c ∷ []) ≡ digits_value acc s * 10 + (c - b'0')
unfolding digits_value
digits_value-append acc [] c = refl
digits_value-append acc (d ∷ s) c = digits_value-append (acc * 10 + (d - b'0')) s c

digits_value-itoa_fuel : (f n : ℕ) → n < f → digits_value 0 (itoa_fuel f n) ≡ n
unfolding itoa_fuel digits_value
digits_value-itoa_fuel zero n h = absurd (omega arith)
digits_value-itoa_fuel (suc f) n h = elim (Bool-cases (ltb n 10)) [
  | inl small ↦ rw small (omega arith)
  | inr large ↦
      rw (large, digits_value-append 0 (itoa_fuel f (n / 10)) (b'0' + n % 10))
        (ground (arith, digits_value-itoa_fuel f (n / 10)))
]

-- The digits determine the number.
pub itoa_injective : (m n : ℕ) → itoa m ≡ itoa n → m ≡ n
unfolding itoa
itoa_injective m n e =
    sym (digits_value-itoa_fuel (suc m) m (omega arith))
    ∙ ap (digits_value 0) e
    ∙ digits_value-itoa_fuel (suc n) n (omega arith)

pub append_injective : (s t u : Text) → s ++ t ≡ s ++ u → t ≡ u
append_injective [] t u e = e
append_injective (a ∷ s) t u e = append_injective s t u (cc)
