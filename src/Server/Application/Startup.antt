-- ===== src/Server/Application/Startup.antt =====
-- What a start of the server has done when it returns.
use mathlib.Core.Path.{subst}
use go_message_dispatcher.Base.{
  zero, suc, ◌≡◌, refl, sym, ap, ◌∙◌, true, some, none, Text, ℤ, pos, negsuc, ◌<◌, arith,
  is_positive, if◌then◌else◌, Result, ok, err, Error, Action,
}
use go_message_dispatcher.Config.{Config, Environment, settings, load}
use go_message_dispatcher.Config.Bounds.{load_iff, load-settings}
use go_message_dispatcher.Domain.{MessageService}
use go_message_dispatcher.Lock.{DistributedLock}
use go_message_dispatcher.Scheduler.{active_lock}
use go_message_dispatcher.Scheduler.Lifecycle.{start}
use go_message_dispatcher.Server.Application.{
  Platform, Process, Application, nanoseconds, message_scheduler, prepare, new_application,
}

-- An action that leaves the goroutines alone.
abbrev Quiet : {W A : Type 0} → Action (Process W) A → Type 0
Quiet {W} m = (p : Process W) → (m p).1.life ≡ p.life

module _ {W : Type 0} (platform : Platform W) (env : Environment) where
  prepare-Quiet : Quiet (prepare platform env)
  unfolding prepare
  prepare-Quiet p = ground arith

  prepare_ok :
      (p : Process W) (cfg : Config) → (prepare platform env p).0 ≡ ok cfg → load env ≡ ok cfg
  unfolding prepare
  prepare_ok p cfg e = ground arith

ok_inj : {A : Type 0} {a b : A} → ok a ≡ ok b → a ≡ b
ok_inj h = cc

-- What `Load` returns is what it read, and has passed the check.
load_positive :
    (env : Environment) (cfg : Config)
    → load env ≡ ok cfg
    → (is_positive cfg.app.batch_size ≡ true)
      × (is_positive cfg.app.processing_interval ≡ true)
      × (is_positive cfg.app.max_content_length ≡ true)
load_positive env cfg e =
    let same : settings env ≡ cfg = load-settings env cfg e in
    subst
      (λ c.
        (is_positive c.app.batch_size ≡ true)
        × (is_positive c.app.processing_interval ≡ true)
        × (is_positive c.app.max_content_length ≡ true))
      same ((load_iff env).0 (e ∙ ap ok (sym same)))

nanoseconds_pos : (i : ℤ) → is_positive i ≡ true → 0 < nanoseconds i
nanoseconds_pos (pos zero) h = absurd (cc)
nanoseconds_pos (pos (suc n)) h = omega arith
nanoseconds_pos (negsuc n) h = absurd (cc)

module _ {S : Type 0} (service : MessageService S) (new_lock : Text → ℤ → DistributedLock S) where
  message_scheduler_interval :
      (cfg : Config)
      → (message_scheduler cfg service new_lock).interval ≡ nanoseconds cfg.app.processing_interval
  unfolding message_scheduler
  message_scheduler_interval cfg = ground arith

  message_scheduler_lock :
      (cfg : Config)
      → active_lock (message_scheduler cfg service new_lock) ≡ (
          if cfg.app.distributed_lock_enabled
          then some (new_lock cfg.app.distributed_lock_key cfg.app.distributed_lock_ttl)
          else none)
  unfolding message_scheduler
  message_scheduler_lock cfg = ground arith

  module _ {W : Type 0} (platform : Platform W) (env : Environment) (p : Process W) where
    abbrev pub launched : Result (Application S) × Process W
    launched = new_application platform env service new_lock p

    launched_from :
        (r : Result Config)
        → (prepare platform env p).0 ≡ r
        → (app : Application S) → launched.0 ≡ ok app
        → (r ≡ ok app.config)
          × (app.scheduler ≡ message_scheduler app.config service new_lock)
          × (launched.1.life ≡ start (prepare platform env p).1.life)
    unfolding new_application
    launched_from (ok cfg) e app done =
        let same : record { config = cfg; scheduler = message_scheduler cfg service new_lock }
            ≡ app =
          ok_inj (rw (e, new_application) at done) in
        (
          ap (λ a. ok a.config) same,
          sym (ap (λ a. a.scheduler) same)
              ∙ ap (λ a. message_scheduler a.config service new_lock) same,
          rw (e, new_application) refl,
        )
    launched_from (err x) e app done = absurd (cc (rw (e, new_application) at done))

    unlaunched_from :
        (r : Result Config)
        → (prepare platform env p).0 ≡ r
        → (e : Error) → launched.0 ≡ err e
        → launched.1.life ≡ (prepare platform env p).1.life
    unfolding new_application
    unlaunched_from (ok cfg) e x failed = absurd (cc (rw (e, new_application) at failed))
    unlaunched_from (err y) e x failed = rw (e, new_application) refl

    -- What has been launched.
    launched_ok :
        (app : Application S)
        → launched.0 ≡ ok app
        → (load env ≡ ok app.config)
          × (is_positive app.config.app.batch_size ≡ true)
          × (is_positive app.config.app.max_content_length ≡ true)
          × (0 < app.scheduler.interval)
          × (active_lock app.scheduler ≡ (
              if app.config.app.distributed_lock_enabled
              then some
                  (new_lock app.config.app.distributed_lock_key app.config.app.distributed_lock_ttl)
              else none))
          × (launched.1.life ≡ start p.life)
    launched_ok app done =
        let (read, made, begun) = launched_from (prepare platform env p).0 refl app done in
        let loaded = prepare_ok platform env p app.config read in
        let (batch, interval, content) = load_positive env app.config loaded in
        (
          loaded,
          batch,
          content,
          omega (
            arith,
            nanoseconds_pos app.config.app.processing_interval interval,
            ap (λ s. s.interval) made,
            message_scheduler_interval app.config,
          ),
          ap active_lock made ∙ message_scheduler_lock app.config,
          begun ∙ ap start (prepare-Quiet platform env p),
        )

    -- If `NewApplication` succeeds, then the settings are those of the environment and positive where
    -- they have to be, the scheduler ticks at a positive interval and uses the lock of the settings
    -- exactly if it is enabled there, and it has been started once. If it fails, then no worker has
    -- been started.
    pub new_application_lem :
        ((app : Application S)
          → launched.0 ≡ ok app
          → (load env ≡ ok app.config)
            × (is_positive app.config.app.batch_size ≡ true)
            × (is_positive app.config.app.max_content_length ≡ true)
            × (0 < app.scheduler.interval)
            × (active_lock app.scheduler ≡ (
                if app.config.app.distributed_lock_enabled
                then some (
                    new_lock app.config.app.distributed_lock_key
                      app.config.app.distributed_lock_ttl)
                else none))
            × (launched.1.life ≡ start p.life))
        × ((e : Error) → launched.0 ≡ err e → launched.1.life ≡ p.life)
    new_application_lem = (
      launched_ok,
      (λ e failed.
          unlaunched_from (prepare platform env p).0 refl e failed ∙ prepare-Quiet platform env p),
    )
