-- ===== src/Server/Application.antt =====
-- cmd/server/main.go: `NewApplication` from the settings to the running scheduler, and the end of the shutdown.
-- The loggers, drivers and the HTTP server are parameters.
pub mod Startup
pub mod Pool
use go_message_dispatcher.Base.{
  ◌≡◌, Bool, true, false, some, none, [], Text, bytes, text_eq, ℤ, pos, negsuc, ℕ, if◌then◌else◌,
  Result, ok, err, Action, pure, ◌>>=◌, ◌>>◌, lift, wrapping,
}
use go_message_dispatcher.Config.{Config, Environment, load, database_dsn, redis_addr}
use go_message_dispatcher.Domain.{MessageService}
use go_message_dispatcher.Lock.{DistributedLock}
use go_message_dispatcher.Scheduler.{
  Scheduler, new_message_scheduler, new_message_scheduler_with_lock,
}
use go_message_dispatcher.Scheduler.Lifecycle.{Life, Within, controller}
use go_message_dispatcher.Server.Connection.{Connector, connect}

pub data Level : Type 0 where
  debug info warn error : Level

-- The `switch` of `initLogger`.
unfoldable pub log_level : Text → Level
log_level t =
    if text_eq t (bytes "debug")
    then debug
    else if text_eq t (bytes "info")
    then info
    else if text_eq t (bytes "warn")
    then warn
    else if text_eq t (bytes "error")
    then error
    else info

-- Code of others: `zapLogConfig.Build`, `sql.Open`, the clients, and the ends of their work.
pub record Platform (W : Type 0) : Type 0 where
  pub build_logger : Level → Action W (Unit {0})
  pub open_db : Text → Action W (Unit {0})
  pub db : Connector W
  pub close_db : Action W (Unit {0})
  -- the client for an address, with password and number of the database
  pub redis : Text → Text → ℤ → Connector W
  pub close_redis : Action W (Unit {0})
  pub shutdown_http : Action W (Unit {0})

-- The scheduler's goroutines beside the world outside.
pub record Process (W : Type 0) : Type 0 where
  pub life : Life
  pub outside : W

abbrev pub on_outside : {W A : Type 0} → Action W A → Action (Process W) A
on_outside m p = let r = m p.outside in (r.0, record p { outside = r.1 })

abbrev pub on_life : {W A : Type 0} → Action Life A → Action (Process W) A
on_life m p = let r = m p.life in (r.0, record p { life = r.1 })

-- A duration that has passed the check of the settings is positive.
abbrev pub nanoseconds : ℤ → ℕ
nanoseconds (pos n) = n
nanoseconds (negsuc n) = 0

-- Of the struct, the fields that are not handles of the parameters.
pub record Application (S : Type 0) : Type 0 where
  pub config : Config
  pub scheduler : Scheduler S

-- The choice between the two constructors of the scheduler.
unfoldable pub message_scheduler :
    {S : Type 0} → Config → MessageService S → (Text → ℤ → DistributedLock S) → Scheduler S
message_scheduler cfg service new_lock =
    if cfg.app.distributed_lock_enabled
    then new_message_scheduler_with_lock service (nanoseconds cfg.app.processing_interval)
        (new_lock cfg.app.distributed_lock_key cfg.app.distributed_lock_ttl)
    else new_message_scheduler service (nanoseconds cfg.app.processing_interval)

module _ {W : Type 0} (platform : Platform W) where
  abbrev close_after : Result (Unit {0}) × W → Result (Unit {0}) × W
  close_after (ok _, w) = (ok tt, w)
  close_after (err e, w) = (err e, (platform.close_db w).1)

  -- After five failures the pool is closed.
  unfoldable pub init_database : Config → Action W (Unit {0})
  init_database cfg = do
    wrapping "failed to open database connection" [] (platform.open_db (database_dsn cfg))
    λ w. close_after (connect platform.db "failed to connect to database after %d attempts" w)

  unfoldable pub init_redis : Config → Action W (Unit {0})
  init_redis cfg =
      connect (platform.redis (redis_addr cfg) cfg.redis.password cfg.redis.db)
        "failed to connect to Redis after %d attempts"

  -- `NewApplication` up to the construction of the components.
  unfoldable pub prepare : Environment → Action (Process W) Config
  prepare env = do
    cfg ← wrapping "failed to load configuration" [] (lift (load env))
    wrapping "failed to initialize logger" []
        (on_outside (platform.build_logger (log_level cfg.server.log_level)))
    wrapping "failed to initialize database" [] (on_outside (init_database cfg))
    wrapping "failed to initialize Redis" [] (on_outside (init_redis cfg))
    pure cfg

  unfoldable pub new_application :
      {S : Type 0}
      → Environment
      → MessageService S
      → (Text → ℤ → DistributedLock S)
      → Action (Process W) (Application S)
  new_application env service new_lock = do
    cfg ← prepare env
    wrapping "failed to start message scheduler" [] (on_life controller.start)
    pure (record { config = cfg; scheduler = message_scheduler cfg service new_lock })

  -- `waitForShutdown` behind its call of `Stop`; errors are logged.
  unfoldable pub close_all : Process W → Process W
  close_all p =
      let served = (on_outside platform.shutdown_http p).1 in
      let closed = (on_outside platform.close_db served).1 in
      (on_outside platform.close_redis closed).1
