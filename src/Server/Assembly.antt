-- ===== src/Server/Assembly.antt =====
-- cmd/server/main.go: `NewApplication` puts the repositories and the provider under the message
-- service. The world has a part for each of the systems outside, and each call reaches one of them.
pub mod EndToEnd
pub mod Drain
pub mod Resend
use go_message_dispatcher.Base.{ℕ, List, Text, Result, Action}
use go_message_dispatcher.Domain.{CachedDelivery, MessageRepository, CacheRepository, SmsProvider}
use go_message_dispatcher.Service.{Service}
use go_message_dispatcher.Config.{Config}
use go_message_dispatcher.Service.Provider.{
  ClientOptions, HttpClient, new_http_sms_provider, sms_provider,
}

pub record Outside (D R P T : Type 0) : Type 0 where
  pub db : D
  pub redis : R
  pub provider : P
  pub clock : T

-- The provider that the settings name.
abbrev pub configured_provider :
    {P : Type 0} → Config → (ClientOptions → HttpClient P) → SmsProvider P
configured_provider cfg client =
    sms_provider (new_http_sms_provider client cfg.sms.api_url cfg.sms.token)

module _ {D R P T : Type 0} where
  abbrev pub on_db : {A : Type 0} → Action D A → Action (Outside D R P T) A
  on_db m w = let r = m w.db in (r.0, record w { db = r.1 })

  abbrev pub on_redis : {A : Type 0} → Action R A → Action (Outside D R P T) A
  on_redis m w = let r = m w.redis in (r.0, record w { redis = r.1 })

  abbrev pub on_provider : {A : Type 0} → Action P A → Action (Outside D R P T) A
  on_provider m w = let r = m w.provider in (r.0, record w { provider = r.1 })

  abbrev pub on_clock : (T → ℕ × T) → Outside D R P T → ℕ × Outside D R P T
  on_clock now w = let r = now w.clock in (r.0, record w { clock = r.1 })

  unfoldable pub message_service :
      MessageRepository D
      → CacheRepository R
      → SmsProvider P
      → (T → ℕ × T)
      → Service (Outside D R P T)
  message_service repo cache provider now = record {
    message_repo = record {
      get_unsent_messages = λ limit. on_db (repo.get_unsent_messages limit);
      mark_as_sent = λ n. on_db (repo.mark_as_sent n);
      get_sent_messages = on_db repo.get_sent_messages;
      create_message = λ p c. on_db (repo.create_message p c);
    };
    cache_repo = record {
      set_delivery_cache = λ n d. on_redis (cache.set_delivery_cache n d);
      get_delivery_cache = λ n. on_redis (cache.get_delivery_cache n);
      get_multiple_delivery_cache = λ ns. on_redis (cache.get_multiple_delivery_cache ns);
    };
    sms_provider = record { send_message = λ p c. on_provider (provider.send_message p c) };
    now = on_clock now;
  }
