-- ===== src/Server/Connection.antt =====
-- cmd/server/main.go: the loops of `initDatabase` and `initRedis`, which try a ping five times and
-- sleep between the tries. The ping and the sleep are parameters.
use go_message_dispatcher.Base.{
  ℕ, zero, suc, ◌+◌, ◌*◌, ◌≤◌, ◌≡◌, inl, inr, [], ◌∷◌, arith, ltb, if◌then◌else◌, String, Error, ok,
  err, wrap, message, Action, Result-cases,
}

pub record Connector (W : Type 0) : Type 0 where
  pub ping : Action W (Unit {0})
  -- nanoseconds
  pub sleep : ℕ → W → W

abbrev pub max_retries : ℕ
max_retries = 5

-- `time.Duration(attempt*attempt) * time.Second`
abbrev pub backoff : ℕ → ℕ
backoff attempt = attempt * attempt * 1_000_000_000

module _ {W : Type 0} (c : Connector W) (text : String) where
  -- No sleep follows the last try.
  abbrev pub pause : ℕ → W → W
  pause attempt w = if ltb attempt max_retries then c.sleep (backoff attempt) w else w

  -- The loop, with the tries that are left, the number of the next one and the last error.
  unfoldable pub tries : ℕ → ℕ → Error → Action W (Unit {0})
  tries zero attempt last_err w = (err (wrap text (max_retries ∷ []) last_err), w)
  tries (suc left) attempt last_err w =
      let r = c.ping w in
      elim r.0 [ ok _ ↦ (ok tt, r.1) | err e ↦ tries left (attempt + 1) e (pause attempt r.1) ]

  -- The error `lastErr` that the loop begins with is never shown.
  unfoldable pub connect : Action W (Unit {0})
  connect = tries max_retries 1 (message "" [])

-- The pings made and the time slept, as they are counted.
pub record IsCounted {W : Type 0} (c : Connector W) : Type 0 where
  pub pings : W → ℕ
  pub slept : W → ℕ
  pub pings-ping : (w : W) → pings (c.ping w).1 ≡ pings w + 1
  pub slept-ping : (w : W) → slept (c.ping w).1 ≡ slept w
  pub pings-sleep : (n : ℕ) (w : W) → pings (c.sleep n w) ≡ pings w
  pub slept-sleep : (n : ℕ) (w : W) → slept (c.sleep n w) ≡ slept w + n

-- The time that some further tries may sleep.
abbrev pauses : ℕ → ℕ → ℕ
pauses zero attempt = 0
pauses (suc left) attempt =
    (if ltb attempt max_retries then backoff attempt else 0) + pauses left (attempt + 1)

module _ {W : Type 0} (c : Connector W) (h : IsCounted c) (text : String) where
  open h use {pings, slept}

  pings-pause : (attempt : ℕ) (w : W) → pings (pause c text attempt w) ≡ pings w
  pings-pause attempt w = ground (arith, h.pings-sleep (backoff attempt) w)

  slept-pause :
      (attempt : ℕ) (w : W)
      → slept (pause c text attempt w)
        ≡ slept w + (if ltb attempt max_retries then backoff attempt else 0)
  slept-pause attempt w = ground (arith, h.slept-sleep (backoff attempt) w)

  tries_err :
      (left attempt : ℕ) (last_err e : Error) (w : W)
      → (tries c text left attempt last_err w).0 ≡ err e
      → (pings (tries c text left attempt last_err w).1 ≡ pings w + left)
        × (slept (tries c text left attempt last_err w).1 ≡ slept w + pauses left attempt)
  unfolding tries
  tries_err zero attempt last_err e w failed = (omega arith, omega arith)
  tries_err (suc left) attempt last_err e w failed = elim (Result-cases (c.ping w).0) [
    | inl (a, up) ↦ absurd (cc (rw (up, tries) at failed))
    | inr (x, down) ↦
        let w' = pause c text attempt (c.ping w).1 in
        let (p, s) = tries_err left (attempt + 1) x e w' (rw (down, tries) at failed) in
        let a = pings-pause attempt (c.ping w).1 in
        let b = slept-pause attempt (c.ping w).1 in
        rw (down, tries) (omega (arith, p, a, h.pings-ping w), omega (arith, s, b, h.slept-ping w))
  ]

  tries_ok :
      (left attempt : ℕ) (last_err : Error) (w : W)
      → (tries c text left attempt last_err w).0 ≡ ok tt
      → (pings w + 1 ≤ pings (tries c text left attempt last_err w).1)
        × (pings (tries c text left attempt last_err w).1 ≤ pings w + left)
        × (slept (tries c text left attempt last_err w).1 ≤ slept w + pauses left attempt)
  unfolding tries
  tries_ok zero attempt last_err w done = absurd (cc)
  tries_ok (suc left) attempt last_err w done = elim (Result-cases (c.ping w).0) [
    | inl (a, up) ↦
        rw (up, tries)
          (
            omega (arith, h.pings-ping w),
            omega (arith, h.pings-ping w),
            omega (arith, h.slept-ping w),
          )
    | inr (x, down) ↦
        let w' = pause c text attempt (c.ping w).1 in
        let (l, p, s) = tries_ok left (attempt + 1) x w' (rw (down, tries) at done) in
        let a = pings-pause attempt (c.ping w).1 in
        let b = slept-pause attempt (c.ping w).1 in
        rw (down, tries)
          (
            omega (arith, l, a, h.pings-ping w),
            omega (arith, p, a, h.pings-ping w),
            omega (arith, s, b, h.slept-ping w),
          )
  ]

  -- A connection that fails has made five pings and slept thirty seconds.
  pub connect_err :
      (e : Error) (w : W)
      → (connect c text w).0 ≡ err e
      → (pings (connect c text w).1 ≡ pings w + 5)
        × (slept (connect c text w).1 ≡ slept w + 30_000_000_000)
  unfolding connect
  connect_err e w failed = tries_err max_retries 1 _ e w failed

  -- A connection that succeeds has made one to five pings and slept at most thirty seconds.
  pub connect_ok :
      (w : W)
      → (connect c text w).0 ≡ ok tt
      → (pings w + 1 ≤ pings (connect c text w).1)
        × (pings (connect c text w).1 ≤ pings w + 5)
        × (slept (connect c text w).1 ≤ slept w + 30_000_000_000)
  unfolding connect
  connect_ok w done = tries_ok max_retries 1 _ w done
