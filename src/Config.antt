-- ===== src/Config.antt =====
-- internal/config/config.go: the settings, read from the environment and checked. `os.Getenv` gives
-- an empty text for a variable that is not set. Durations are nanoseconds.
pub mod Bounds
use go_message_dispatcher.Base.{
  ℕ, ◌*◌, Bool, true, false, not, Option, none, some, [], ◌∷◌, ◌++◌, if◌then◌else◌, Text, bytes,
  is_empty, ℤ, pos, is_positive, format_int, atoi, parse_bool, message, Result, ok, err, wrap_err,
}

-- The variables of the process, and `time.ParseDuration`.
pub record Environment : Type 0 where
  pub getenv : Text → Text
  pub parse_duration : Text → Option ℤ

pub record DatabaseConfig : Type 0 where
  pub host : Text
  pub port : ℤ
  pub name : Text
  pub user : Text
  pub password : Text
  pub ssl_mode : Text

pub record RedisConfig : Type 0 where
  pub host : Text
  pub port : ℤ
  pub password : Text
  pub db : ℤ

pub record ServerConfig : Type 0 where
  pub port : ℤ
  pub log_level : Text

pub record SmsConfig : Type 0 where
  pub api_url : Text
  pub token : Text

pub record AppConfig : Type 0 where
  pub batch_size : ℤ
  pub processing_interval : ℤ
  pub shutdown_timeout : ℤ
  pub distributed_lock_enabled : Bool
  pub distributed_lock_ttl : ℤ
  pub distributed_lock_key : Text
  pub max_content_length : ℤ

pub record Config : Type 0 where
  pub database : DatabaseConfig
  pub redis : RedisConfig
  pub server : ServerConfig
  pub sms : SmsConfig
  pub app : AppConfig

abbrev or_default {ℓ} : {A : Type ℓ} → A → Option A → A
or_default default_value none = default_value
or_default default_value (some a) = a

-- `time.Second`
abbrev seconds : ℕ → ℤ
seconds n = pos (n * 1_000_000_000)

module _ (env : Environment) where
  unfoldable pub get_env : Text → Text → Text
  get_env key default_value =
      let value = env.getenv key in if is_empty value then default_value else value

  unfoldable pub get_env_int : Text → ℤ → ℤ
  get_env_int key default_value =
      let value = env.getenv key in
      if is_empty value then default_value else or_default default_value (atoi value)

  unfoldable pub get_env_duration : Text → ℤ → ℤ
  get_env_duration key default_value =
      let value = env.getenv key in
      if is_empty value then default_value else or_default default_value (env.parse_duration value)

  unfoldable pub get_env_bool : Text → Bool → Bool
  get_env_bool key default_value =
      let value = env.getenv key in
      if is_empty value then default_value else or_default default_value (parse_bool value)

  -- The struct that `Load` fills.
  abbrev pub settings : Config
  settings = record {
    database = record {
      host = get_env (bytes "DB_HOST") (bytes "localhost");
      port = get_env_int (bytes "DB_PORT") (pos 5432);
      name = get_env (bytes "DB_NAME") (bytes "messages_db");
      user = get_env (bytes "DB_USER") (bytes "postgres");
      password = get_env (bytes "DB_PASSWORD") (bytes "password");
      ssl_mode = get_env (bytes "DB_SSLMODE") (bytes "disable");
    };
    redis = record {
      host = get_env (bytes "REDIS_HOST") (bytes "localhost");
      port = get_env_int (bytes "REDIS_PORT") (pos 6379);
      password = get_env (bytes "REDIS_PASSWORD") [];
      db = get_env_int (bytes "REDIS_DB") (pos 0);
    };
    server = record {
      port = get_env_int (bytes "SERVER_PORT") (pos 8080);
      log_level = get_env (bytes "LOG_LEVEL") (bytes "info");
    };
    sms = record {
      api_url = get_env (bytes "SMS_API_URL") (bytes "http://localhost:3001/send");
      token = get_env (bytes "SMS_API_TOKEN") (bytes "mock-token");
    };
    app = record {
      batch_size = get_env_int (bytes "BATCH_SIZE") (pos 2);
      processing_interval = get_env_duration (bytes "PROCESSING_INTERVAL") (seconds 120);
      shutdown_timeout = get_env_duration (bytes "SHUTDOWN_TIMEOUT") (seconds 30);
      distributed_lock_enabled = get_env_bool (bytes "DISTRIBUTED_LOCK_ENABLED") false;
      distributed_lock_ttl = get_env_duration (bytes "DISTRIBUTED_LOCK_TTL") (seconds 180);
      distributed_lock_key =
          get_env (bytes "DISTRIBUTED_LOCK_KEY") (bytes "message-dispatcher:lock");
      max_content_length = get_env_int (bytes "MAX_CONTENT_LENGTH") (pos 160);
    };
  }

unfoldable pub validate : Config → Result (Unit {0})
validate c =
    if is_empty c.database.name
    then err (message "database name is required" [])
    else if is_empty c.database.user
    then err (message "database user is required" [])
    else if is_empty c.sms.api_url
    then err (message "SMS API URL is required" [])
    else if not (is_positive c.app.batch_size)
    then err (message "batch size must be positive" [])
    else if not (is_positive c.app.processing_interval)
    then err (message "processing interval must be positive" [])
    else if not (is_positive c.app.max_content_length)
    then err (message "max content length must be positive" [])
    else ok tt

-- What `Load` returns of the struct and of the result of its check.
abbrev pub loaded : Config → Result (Unit {0}) → Result Config
loaded c (ok _) = ok c
loaded c (err e) = err e

unfoldable pub load : Environment → Result Config
load env =
    let c = settings env in loaded c (wrap_err "configuration validation failed" [] (validate c))

abbrev pub database_dsn : Config → Text
database_dsn c =
    bytes "host="
    ++ c.database.host
    ++ bytes " port="
    ++ format_int c.database.port
    ++ bytes " user="
    ++ c.database.user
    ++ bytes " password="
    ++ c.database.password
    ++ bytes " dbname="
    ++ c.database.name
    ++ bytes " sslmode="
    ++ c.database.ssl_mode

abbrev pub redis_addr : Config → Text
redis_addr c = c.redis.host ++ bytes ":" ++ format_int c.redis.port
