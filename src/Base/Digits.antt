-- ===== src/Base/Digits.antt =====
-- How many digits `Itoa` writes, and which.
use Prim.Native.Nat.{ℕ, zero, suc, ◌+◌, ◌*◌, ◌/◌, ◌%◌, ◌^◌, ◌≤◌, ◌<◌}
use mathlib.Core.Path.{◌≡◌}
use mathlib.Core.Logic.{inl, inr}
use mathlib.Core.List.{[], ◌∷◌}
use native.Mathlib.Omega.{arith}
use go_message_dispatcher.Base.Tests.{ltb, Bool-cases}
use go_message_dispatcher.Base.Lists.{length, length-append, All, All-append}
use go_message_dispatcher.Base.Bytes.{itoa, itoa_fuel}

abbrev pub IsDigit : ℕ → Type 0
IsDigit c = (b'0' ≤ c) × (c ≤ b'9')

power_step : (k : ℕ) → 10 ^ suc k ≡ 10 * 10 ^ k
power_step k = omega arith

power_pos : (k : ℕ) → 1 ≤ 10 ^ k
power_pos zero = omega arith
power_pos (suc k) = omega (arith, power_step k, power_pos k)

length-itoa_fuel :
    (k f n : ℕ)
    → n < f
    → n < 10 ^ suc k
    → (length (itoa_fuel f n) ≤ suc k) × (10 ^ k ≤ n → length (itoa_fuel f n) ≡ suc k)
unfolding itoa_fuel
length-itoa_fuel k zero n h small = absurd (omega arith)
length-itoa_fuel zero (suc f) n h small = ground arith
length-itoa_fuel (suc k) (suc f) n h small = elim (Bool-cases (ltb n 10)) [
  | inl one ↦ rw one (omega arith, λ large. absurd (ground (arith, power_step k, power_pos k)))
  | inr more ↦
      let (a, b) =
        length-itoa_fuel k f (n / 10) (ground arith)
          (omega (arith, power_step (suc k), power_step k, small)) in
      rw (more, length-append (itoa_fuel f (n / 10)) ((b'0' + n % 10) ∷ []))
        (omega (arith, a), λ large. omega (arith, b (omega (arith, power_step k, large))))
]

itoa_fuel-IsDigit : (f n : ℕ) → All IsDigit (itoa_fuel f n)
unfolding itoa_fuel
itoa_fuel-IsDigit zero n = tt
itoa_fuel-IsDigit (suc f) n = elim (Bool-cases (ltb n 10)) [
  | inl one ↦ rw one (ground arith)
  | inr more ↦
      rw more
        (All-append IsDigit (itoa_fuel f (n / 10)) _ (itoa_fuel-IsDigit f (n / 10)) (omega arith))
]

pub itoa-IsDigit : (n : ℕ) → All IsDigit (itoa n)
unfolding itoa
itoa-IsDigit n = itoa_fuel-IsDigit (suc n) n

-- A number below 10 ^ (k + 1) has at most k + 1 digits, and exactly so many from 10 ^ k on.
pub length-itoa :
    (k n : ℕ) → n < 10 ^ suc k → (length (itoa n) ≤ suc k) × (10 ^ k ≤ n → length (itoa n) ≡ suc k)
unfolding itoa
length-itoa k n h = length-itoa_fuel k (suc n) n (omega arith) h
