-- ===== src/MockApi/Middleware.antt =====
-- cmd/mock-api/main.go: `loggerMiddleware`, and the chain of `main` around its routes.
use go_message_dispatcher.Base.{ℕ, ◌-◌, ◌≡◌, refl, List, [], ◌∷◌, ◌++◌, ◌⊎◌, inl, inr, Text}
use go_message_dispatcher.Gin.{Outcome, replied, panicked, Chain, IsRecovery, Outcome-cases}
use go_message_dispatcher.MockApi.{Reply}

-- What the line shows: the time of the request, its method and path, the status, and how long it took.
pub record RequestLine : Type 0 where
  pub started : ℕ
  pub method : Text
  pub path : Text
  pub status : ℕ
  pub elapsed : ℕ

-- `clock` is `time.Now()`, and `print` is the call of `fmt.Printf`.
module _ {W : Type 0} (clock : W → ℕ × W) (print : RequestLine → W → W) where
  abbrev pub line_of : Text → Text → ℕ → Reply → ℕ → RequestLine
  line_of method path start reply elapsed = record {
    started = start;
    method = method;
    path = path;
    status = reply.code;
    elapsed = elapsed;
  }

  abbrev after_next : Text → Text → ℕ → Outcome Reply → W → Outcome Reply × W
  after_next method path start (replied reply) w =
      let now = clock w in
      (replied reply, print (line_of method path start reply (now.0 - start)) now.1)
  after_next method path start panicked w = (panicked, w)

  unfoldable pub logger_middleware : Text → Text → Chain W Reply → Chain W Reply
  logger_middleware method path next w =
      let start = clock w in
      let answer = next start.1 in after_next method path start.0 answer.0 answer.1

  -- `loggerMiddleware` stands in front of `Recovery`.
  unfoldable pub with_middleware :
      (Chain W Reply → Chain W Reply) → Text → Text → Chain W Reply → Chain W Reply
  with_middleware recovery method path route = logger_middleware method path (recovery route)

-- `lines` are the lines that have been printed.
pub record IsOutput {W : Type 0} (clock : W → ℕ × W) (print : RequestLine → W → W) : Type 0 where
  pub lines : W → List RequestLine
  pub lines-print : (e : RequestLine) (w : W) → lines (print e w) ≡ lines w ++ e ∷ []
  pub lines-clock : (w : W) → lines (clock w).1 ≡ lines w

module _ {W : Type 0} (clock : W → ℕ × W) (print : RequestLine → W → W) (l : IsOutput clock print)
    (recovery : Chain W Reply → Chain W Reply) (v : IsRecovery (λ r. r.code) recovery)
    (method path : Text) (route : Chain W Reply)
    (silent : (w : W) → l.lines (route w).1 ≡ l.lines w) where
  abbrev served : Chain W Reply
  served = with_middleware clock print recovery method path route

  -- A line with the method, the path and the status of the reply has been printed behind `w`.
  abbrev Shown : W → Reply → W → Type 0
  Shown w reply w' =
      (start elapsed : ℕ) × (l.lines w'
        ≡ l.lines w
          ++ record {
            started = start;
            method = method;
            path = path;
            status = reply.code;
            elapsed = elapsed;
          }
            ∷ [])

  recovered_lem :
      (w : W) (reply : Reply)
      → (recovery route (clock w).1).0 ≡ replied reply
      → l.lines (recovery route (clock w).1).1 ≡ l.lines (route (clock w).1).1
      → ((served w).0 ≡ replied reply) × Shown w reply (served w).1
  unfolding with_middleware logger_middleware
  recovered_lem w reply e same =
      rw (logger_middleware, e)
        (
          refl,
          (
            (clock w).0,
            (clock (recovery route (clock w).1).1).0 - (clock w).0,
            rw (l.lines-print, l.lines-clock, same, silent, l.lines-clock) refl,
          ),
        )

  -- Every request to the mock is answered, and one line is printed for it, with the method and path
  -- of the request and the status of the answer: that of the route, or 500 if it has panicked.
  -- `Recovery` answers a panic with 500, and nothing else prints such lines.
  pub with_middleware_lem :
      (w : W)
      → (reply : Reply) × ((served w).0 ≡ replied reply)
        × Shown w reply (served w).1
        × (((route (clock w).1).0 ≡ replied reply)
            ⊎ (((route (clock w).1).0 ≡ panicked) × (reply.code ≡ 500)))
  with_middleware_lem w = elim (Outcome-cases (route (clock w).1).0) [
    | inl (reply, e) ↦
        let same = v.through route (clock w).1 reply e in
        let (answered, shown) = recovered_lem w reply (rw (same, e) refl) (rw same refl) in
        (reply, answered, shown, inl e)
    | inr e ↦
        let (reply, caught, status) = v.caught route (clock w).1 e in
        let (answered, shown) =
          recovered_lem w reply caught (rw (v.caught-world route (clock w).1 e) refl) in
        (reply, answered, shown, inr (e, status))
  ]
