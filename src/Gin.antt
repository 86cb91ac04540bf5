-- ===== src/Gin.antt =====
-- github.com/gin-gonic/gin, as the two servers use it: a chain of handlers, in which each one calls
-- the rest by `c.Next()`, and the middleware `gin.Recovery()`, which is a parameter.
use go_message_dispatcher.Base.{ℕ, ◌≡◌, refl, ◌⊎◌, inl, inr}

-- What a handler comes to: a reply has been written, or the handler has panicked.
pub data Outcome (R : Type 0) : Type 0 where
  replied : R → Outcome R
  panicked : Outcome R

pub Outcome-cases : {R : Type 0} (o : Outcome R) → ((r : R) × (o ≡ replied r)) ⊎ (o ≡ panicked)
Outcome-cases (replied r) = inl (r, refl)
Outcome-cases panicked = inr refl

abbrev pub Chain : Type 0 → Type 0 → Type 0
Chain W R = W → Outcome R × W

-- A panic is answered with the status 500, as long as nothing has been written before; a reply goes
-- through. What Recovery prints on a panic is left out.
pub record IsRecovery {W R : Type 0} (status : R → ℕ) (recovery : Chain W R → Chain W R)
    : Type 0 where
  pub through :
      (rest : Chain W R) (w : W) (r : R) → (rest w).0 ≡ replied r → recovery rest w ≡ rest w
  pub caught :
      (rest : Chain W R) (w : W)
      → (rest w).0 ≡ panicked
      → (r : R) × ((recovery rest w).0 ≡ replied r) × (status r ≡ 500)
  pub caught-world :
      (rest : Chain W R) (w : W) → (rest w).0 ≡ panicked → (recovery rest w).1 ≡ (rest w).1
