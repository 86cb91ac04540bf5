-- ===== src/Base/Effect.antt =====
-- Go's `error` values, and the actions of the program: a Go function `f(ctx, …) (A, error)` that
-- talks to the outside is an action, which takes the state of the world to a result and the next
-- state. A `context.Context` shows only through the errors of the calls that it cancels, and the
-- calls of the logger change no state of the program: both are left out.
use Prim.Native.Nat.{ℕ}
use Prim.Native.String.{String}
use mathlib.Core.Bool.{Bool, true, false}
use mathlib.Core.List.{List}
use mathlib.Core.Path.{◌≡◌, refl}
use mathlib.Core.Logic.{◌⊎◌, inl, inr}

-- The package-level error values that the program compares with.
pub data Sentinel : Type 0 where
  lock_not_acquired lock_not_held redis_nil : Sentinel

-- `message text args` is `errors.New(text)` or `fmt.Errorf(text, args…)` with numbers as arguments;
-- `wrap text args e` is `fmt.Errorf` with `e` under `%w`; `external` is an error of other code.
pub data Error : Type 0 where
  sentinel : Sentinel → Error
  message : String → List ℕ → Error
  wrap : String → List ℕ → Error → Error
  external : ℕ → Error

abbrev same_sentinel : Sentinel → Sentinel → Bool
same_sentinel lock_not_acquired lock_not_acquired = true
same_sentinel lock_not_held lock_not_held = true
same_sentinel redis_nil redis_nil = true
same_sentinel _ _ = false

-- `errors.Is(err, target)`
abbrev pub is : Error → Sentinel → Bool
is (sentinel s) t = same_sentinel s t
is (message text args) t = false
is (wrap text args e) t = is e t
is (external n) t = false

pub data Result {ℓ} (A : Type ℓ) : Type ℓ where
  ok : A → Result A
  err : Error → Result A

abbrev pub is_ok {ℓ} : {A : Type ℓ} → Result A → Bool
is_ok (ok _) = true
is_ok (err _) = false

-- `if err != nil { return fmt.Errorf(text, args…, err) }`
abbrev pub wrap_err {ℓ} : {A : Type ℓ} → String → List ℕ → Result A → Result A
wrap_err text args (ok a) = ok a
wrap_err text args (err e) = err (wrap text args e)

-- An action over the world `W`.
abbrev pub Action {ℓ} : Type 0 → Type ℓ → Type ℓ
Action W A = W → Result A × W

module _ {W : Type 0} where
  abbrev pub pure {ℓ} : {A : Type ℓ} → A → Action W A
  pure a w = (ok a, w)

  abbrev pub fail {ℓ} : {A : Type ℓ} → Error → Action W A
  fail e w = (err e, w)

  -- The rest of an action, from the result of its first part.
  abbrev pub continue {ℓ κ} :
      {A : Type ℓ} {B : Type κ} → (A → Action W B) → Result A → W → Result B × W
  continue f (ok a) w = f a w
  continue f (err e) w = (err e, w)

  infixl 5 ◌>>=◌ ◌>>◌
  abbrev pub ◌>>=◌ {ℓ κ} : {A : Type ℓ} {B : Type κ} → Action W A → (A → Action W B) → Action W B
  ◌>>=◌ m f w = continue f (m w).0 (m w).1

  abbrev pub ◌>>◌ {ℓ} : {B : Type ℓ} → Action W (Unit {0}) → Action W B → Action W B
  m >> k = m >>= λ _. k

  -- A result with no effect, such as that of a parser.
  abbrev pub lift {ℓ} : {A : Type ℓ} → Result A → Action W A
  lift r w = (r, w)

  -- `err = m; if err != nil { return wrapped }`
  abbrev pub wrapping {ℓ} : {A : Type ℓ} → String → List ℕ → Action W A → Action W A
  wrapping text args m w = (wrap_err text args (m w).0, (m w).1)

  -- `result, err := m`: the error is looked at by the caller.
  abbrev pub attempt {ℓ} : {A : Type ℓ} → Action W A → Action W (Result A)
  attempt m w = (ok (m w).0, (m w).1)

pub Result-cases {ℓ} :
    {A : Type ℓ} (r : Result A) → ((a : A) × (r ≡ ok a)) ⊎ ((e : Error) × (r ≡ err e))
Result-cases (ok a) = inl (a, refl)
Result-cases (err e) = inr (e, refl)

-- Inversion of a step of a `do` block.
module _ {W : Type 0} {A B : Type 0} (f : A → Action W B) (w : W) where
  pub continue_ok :
      (r : Result A) (b : B)
      → (continue f r w).0 ≡ ok b
      → (a : A) × (r ≡ ok a) × (continue f r w ≡ f a w)
  continue_ok (ok a) b h = (a, refl, refl)
  continue_ok (err e) b h = absurd (cc)

pub wrap_err-ok {ℓ} :
    {A : Type ℓ} (text : String) (args : List ℕ) (r : Result A) (a : A)
    → wrap_err text args r ≡ ok a
    → r ≡ ok a
wrap_err-ok text args (ok b) a h = h
wrap_err-ok text args (err e) a h = absurd (cc)
