-- ===== src/Server/Middleware.antt =====
-- cmd/server/main.go: `setupHTTPServer` around its routes, and the middleware `ginLogger`.
pub mod Logged
use go_message_dispatcher.Base.{
  ℕ, ◌-◌, Bool, Text, ◌++◌, bytes, text_eq, is_empty, format_int, if◌then◌else◌, Option, none, some,
}
use go_message_dispatcher.Config.{Config}
use go_message_dispatcher.Gin.{Outcome, replied, panicked, Chain}
use go_message_dispatcher.Handler.{Reply, MessageHandler}
use go_message_dispatcher.Server.Routes.{Request, own_route}

pub record Incoming : Type 0 where
  pub method : Text
  pub path : Text
  pub raw_query : Text
  pub client_ip : Text

-- The fields of the line `HTTP Request`.
pub record Entry : Type 0 where
  pub status : ℕ
  pub method : Text
  pub path : Text
  pub ip : Text
  pub latency : ℕ

abbrev pub full_path : Incoming → Text
full_path r = if is_empty r.raw_query then r.path else r.path ++ bytes "?" ++ r.raw_query

pub data Mode : Type 0 where
  debug_mode release_mode : Mode

abbrev pub gin_mode : Config → Mode
gin_mode cfg = if text_eq cfg.server.log_level (bytes "debug") then debug_mode else release_mode

abbrev pub read_header_timeout : ℕ
read_header_timeout = 10_000_000_000

pub record HttpServer (W : Type 0) : Type 0 where
  pub mode : Mode
  pub addr : Text
  pub handler : Incoming → Chain W Reply
  pub read_header_timeout : ℕ

-- The handlers of the program, and those of other code, which may panic.
abbrev pub router :
    {W : Type 0} → MessageHandler W → (Request → Chain W Reply) → Incoming → Chain W Reply
router h elsewhere r w =
    let request : Request = record { method = r.method; path = r.path } in
    elim (own_route h request) [
      | none ↦ elsewhere request w
      | some f ↦ let a = f w in (replied a.0, a.1)
    ]

-- `clock` is `time.Now()`, and `info` is `logger.Info` with that message.
module _ {W : Type 0} (clock : W → ℕ × W) (info : Entry → W → W) where
  abbrev pub entry_of : Incoming → Reply → ℕ → Entry
  entry_of r reply latency = record {
    status = reply.code;
    method = r.method;
    path = full_path r;
    ip = r.client_ip;
    latency = latency;
  }

  -- A panic goes through `c.Next()`, and what stands behind it is not run.
  abbrev after_next : Incoming → ℕ → Outcome Reply → W → Outcome Reply × W
  after_next r started (replied reply) w =
      let now = clock w in (replied reply, info (entry_of r reply (now.0 - started)) now.1)
  after_next r started panicked w = (panicked, w)

  unfoldable pub gin_logger : Incoming → Chain W Reply → Chain W Reply
  gin_logger r next w =
      let started = clock w in
      let answer = next started.1 in after_next r started.0 answer.0 answer.1

  -- `Recovery` stands in front of `ginLogger`.
  unfoldable pub setup_http_server :
      Config
      → MessageHandler W
      → (Chain W Reply → Chain W Reply)
      → (Request → Chain W Reply)
      → HttpServer W
  setup_http_server cfg h recovery elsewhere = record {
    mode = gin_mode cfg;
    addr = bytes ":" ++ format_int cfg.server.port;
    handler = λ r. recovery (gin_logger r (router h elsewhere r));
    read_header_timeout = read_header_timeout;
  }
