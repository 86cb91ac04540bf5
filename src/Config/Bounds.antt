-- ===== src/Config/Bounds.antt =====
-- Which environments `Load` accepts, and how its numbers are written.
use go_message_dispatcher.Base.{
  ℕ, [], ◌^◌, ◌<◌, ◌≡◌, refl, ◌↔◌, Bool, true, false, arith, Text, is_empty, itoa, ℤ, pos,
  is_positive, atoi-itoa, is_empty-itoa, Result, ok, err, is_ok, wrap_err, ◌&&◌,
}
use go_message_dispatcher.Config.{
  Environment, Config, get_env, get_env_int, settings, validate, loaded, load,
}

-- A text with a default that is not empty is never empty.
is_empty-get_env :
    (env : Environment) (key default_value : Text)
    → is_empty default_value ≡ false
    → is_empty (get_env env key default_value) ≡ false
unfolding get_env
is_empty-get_env env key default_value h = ground arith

abbrev pub in_bounds : Config → Bool
in_bounds c =
    is_positive c.app.batch_size
    && is_positive c.app.processing_interval
    && is_positive c.app.max_content_length

validate_named :
    (c : Config)
    → is_empty c.database.name ≡ false
    → is_empty c.database.user ≡ false
    → is_empty c.sms.api_url ≡ false
    → is_ok (validate c) ≡ in_bounds c
unfolding validate
validate_named c a b d = ground arith

loaded_iff :
    (c : Config) (r : Result (Unit {0}))
    → (loaded c (wrap_err "configuration validation failed" [] r) ≡ ok c) ↔ (is_ok r ≡ true)
loaded_iff c (ok _) = (λ h. refl, λ h. refl)
loaded_iff c (err e) = (λ h. cc, λ h. cc)

-- `Load` succeeds with the settings exactly if the batch size, the processing interval and the
-- largest content length are positive: no environment makes it fail for a missing name, user or URL.
pub load_iff :
    (env : Environment)
    → let c = settings env in
      (load env ≡ ok c) ↔ (
        (is_positive c.app.batch_size ≡ true)
        × (is_positive c.app.processing_interval ≡ true)
        × (is_positive c.app.max_content_length ≡ true))
unfolding load
load_iff env =
    let c = settings env in
    let bounds : is_ok (validate c) ≡ in_bounds c =
      validate_named c (is_empty-get_env env _ _ refl) (is_empty-get_env env _ _ refl)
        (is_empty-get_env env _ _ refl) in
    let same = loaded_iff c (validate c) in
    ((λ h. let good = same.0 h in ground arith), (λ h. same.1 (ground arith)))

-- A number that is set in decimal is the one that is read, whatever the default.
pub get_env_int-itoa :
    (env : Environment) (key : Text) (default_value : ℤ) (n : ℕ)
    → env.getenv key ≡ itoa n
    → n < 2 ^ 63
    → get_env_int env key default_value ≡ pos n
unfolding get_env_int
get_env_int-itoa env key default_value n set small =
    rw (set, is_empty-itoa n, atoi-itoa n small) refl

loaded_same :
    (c d : Config) (r : Result (Unit {0}))
    → loaded c (wrap_err "configuration validation failed" [] r) ≡ ok d
    → c ≡ d
loaded_same c d (ok _) h = cc
loaded_same c d (err e) h = absurd (cc)

-- What `Load` returns is what it has read.
pub load-settings : (env : Environment) (c : Config) → load env ≡ ok c → settings env ≡ c
unfolding load
load-settings env c h = loaded_same (settings env) c (validate (settings env)) h
