-- ===== src/Server/Middleware/Logged.antt =====
-- What is answered, and which lines the log gets.
use go_message_dispatcher.Base.{ℕ, ◌≡◌, List, [], ◌∷◌, ◌++◌}
use go_message_dispatcher.Config.{Config}
use go_message_dispatcher.Gin.{Outcome, Chain, IsRecovery}
use go_message_dispatcher.Handler.{Reply, MessageHandler}
use go_message_dispatcher.Server.Routes.{Request}
use go_message_dispatcher.Server.Middleware.{Incoming, Entry, router, setup_http_server}

-- `lines` are the lines `HTTP Request` that have been logged.
pub record IsLog {W : Type 0} (clock : W → ℕ × W) (info : Entry → W → W) : Type 0 where
  pub lines : W → List Entry
  pub lines-info : (e : Entry) (w : W) → lines (info e w) ≡ lines w ++ e ∷ []
  pub lines-clock : (w : W) → lines (clock w).1 ≡ lines w

module _ {W : Type 0} (clock : W → ℕ × W) (info : Entry → W → W) (l : IsLog clock info)
    (recovery : Chain W Reply → Chain W Reply) (v : IsRecovery (λ r. r.code) recovery)
    (cfg : Config) (h : MessageHandler W) (elsewhere : Request → Chain W Reply)
    (silent : (r : Incoming) (w : W) → l.lines (router h elsewhere r w).1 ≡ l.lines w) where
  abbrev served : Incoming → W → Outcome Reply × W
  served r = (setup_http_server clock info cfg h recovery elsewhere).handler r

  abbrev inner : Incoming → W → Outcome Reply × W
  inner r w = router h elsewhere r (clock w).1
