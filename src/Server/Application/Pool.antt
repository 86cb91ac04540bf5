-- ===== src/Server/Application/Pool.antt =====
-- `initDatabase`: the tries that it makes, and the pool that it leaves open.
use go_message_dispatcher.Base.{
  ℕ, zero, suc, ◌+◌, ◌-◌, ◌≤◌, ◌≡◌, refl, ◌∙◌, ◌⊎◌, inl, inr, true, false, if◌then◌else◌, arith,
  Text, is_ok, Error, String, Result-cases,
}
use go_message_dispatcher.Config.{Config, database_dsn}
use go_message_dispatcher.Server.Connection.{
  connect, tries, max_retries, pause, backoff, IsCounted, connect_ok, connect_err,
}
use go_message_dispatcher.Server.Application.{Platform, init_database}

-- The pools that are open, beside the count of the pings and of the sleep.
pub record IsPooled {W : Type 0} (platform : Platform W) (h : IsCounted platform.db) : Type 0 where
  pub pools : W → ℕ
  pub pools-open :
      (dsn : Text) (w : W)
      → pools (platform.open_db dsn w).1
        ≡ (if is_ok (platform.open_db dsn w).0 then suc (pools w) else pools w)
  pub pools-close : (w : W) → pools (platform.close_db w).1 ≡ pools w - 1
  pub pools-ping : (w : W) → pools (platform.db.ping w).1 ≡ pools w
  pub pools-sleep : (n : ℕ) (w : W) → pools (platform.db.sleep n w) ≡ pools w
  pub pings-open : (dsn : Text) (w : W) → h.pings (platform.open_db dsn w).1 ≡ h.pings w
  pub slept-open : (dsn : Text) (w : W) → h.slept (platform.open_db dsn w).1 ≡ h.slept w
  pub pings-close : (w : W) → h.pings (platform.close_db w).1 ≡ h.pings w
  pub slept-close : (w : W) → h.slept (platform.close_db w).1 ≡ h.slept w

module _ {W : Type 0} (platform : Platform W) (h : IsCounted platform.db)
    (k : IsPooled platform h) where
  open h use {pings, slept}
  open k use {pools}

  pools-pause :
      (text : String) (attempt : ℕ) (w : W) → pools (pause platform.db text attempt w) ≡ pools w
  pools-pause text attempt w = ground (arith, k.pools-sleep (backoff attempt) w)

  pools-tries :
      (text : String) (left attempt : ℕ) (e : Error) (w : W)
      → pools (tries platform.db text left attempt e w).1 ≡ pools w
  unfolding tries
  pools-tries text zero attempt e w = refl
  pools-tries text (suc left) attempt e w = elim (Result-cases (platform.db.ping w).0) [
    | inl (a, up) ↦ rw (up, tries) (k.pools-ping w)
    | inr (x, down) ↦
        rw (down, tries)
          (pools-tries text left (attempt + 1) x
              (pause platform.db text attempt (platform.db.ping w).1)
            ∙ pools-pause text attempt (platform.db.ping w).1
            ∙ k.pools-ping w)
  ]

  pools-connect : (t : String) (w : W) → pools (connect platform.db t w).1 ≡ pools w
  unfolding connect
  pools-connect t w = pools-tries t max_retries 1 _ w

  -- `initDatabase` leaves one pool open if it succeeds, after one to five pings and at most thirty
  -- seconds of sleep, and none if it fails: then the pool could not be opened at all, or five pings have
  -- failed in thirty seconds and the pool has been closed.
  pub init_database_lem :
      (cfg : Config) (w : W)
      → let r = init_database platform cfg w in
        (is_ok r.0 ≡ true
          → (pools r.1 ≡ pools w + 1)
            × (pings w + 1 ≤ pings r.1)
            × (pings r.1 ≤ pings w + 5)
            × (slept r.1 ≤ slept w + 30_000_000_000))
        × (is_ok r.0 ≡ false
            → (pools r.1 ≡ pools w)
              × (((pings r.1 ≡ pings w) × (slept r.1 ≡ slept w))
                  ⊎ ((pings r.1 ≡ pings w + 5) × (slept r.1 ≡ slept w + 30_000_000_000))))
  unfolding init_database
  init_database_lem cfg w =
      let opened = platform.open_db (database_dsn cfg) w in
      let text : String = "failed to connect to database after %d attempts" in
      let c = connect platform.db text opened.1 in
      let n = k.pools-open (database_dsn cfg) w in
      let p = k.pings-open (database_dsn cfg) w in
      let s = k.slept-open (database_dsn cfg) w in
      elim (Result-cases opened.0) [
        | inr (x, down) ↦
            let same : pools opened.1 ≡ pools w = n ∙ rw down refl in
            rw (down, init_database) ((λ done. absurd (cc)), (λ _. (same, inl (p, s))))
        | inl (a, up) ↦
            let more : pools opened.1 ≡ suc (pools w) = n ∙ rw up refl in
            let kept = pools-connect text opened.1 in
            elim (Result-cases c.0) [
              | inl (b, met) ↦
                  let (l, q, r) = connect_ok platform.db h text opened.1 met in
                  rw (up, init_database, met)
                    (
                      (λ _. (
                        omega (arith, more, kept),
                        omega (arith, l, p),
                        omega (arith, q, p),
                        omega (arith, r, s),
                      )),
                      (λ failed. absurd (cc)),
                    )
              | inr (y, gone) ↦
                  let (q, r) = connect_err platform.db h text y opened.1 gone in
                  let closed = k.pools-close c.1 in
                  let pc = k.pings-close c.1 in
                  let sc = k.slept-close c.1 in
                  rw (up, init_database, gone)
                    (
                      (λ done. absurd (cc)),
                      (λ _. (
                        omega (arith, closed, more, kept),
                        inr (omega (arith, pc, q, p), omega (arith, sc, r, s)),
                      )),
                    )
            ]
      ]
