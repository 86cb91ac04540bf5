-- ===== src/Repository/Cache/Deliveries.antt =====
-- What is cached is found again, by itself and among others.
use mathlib.Core.Path.{subst}
use go_message_dispatcher.Base.{
  ℕ, ◌≡◌, refl, ◌∙◌, sym, ◌≢◌, false, Option, none, some, [], arith, if◌then◌else◌, Text, bytes,
  itoa, itoa_injective, append_injective, text_eq, text_eq_iff, text_eq_refl, Result, ok, err,
  wrap_err,
}
use go_message_dispatcher.Domain.{CachedDelivery}
use go_message_dispatcher.Repository.Cache.{
  Json, RedisCache, build_cache_key, get_reply, set_delivery_cache, get_delivery_cache,
}
use go_message_dispatcher.Repository.Cache.Server.{RoundTrips, Answers, IsCacheServer}

unwrap : (o : Result (Unit {0})) → wrap_err "failed to cache delivery data" [] o ≡ ok tt → o ≡ ok tt
unwrap (ok _) e = refl
unwrap (err x) e = absurd (cc)

some_of : {a b : Option CachedDelivery} → ok a ≡ ok b → a ≡ b
some_of e = cc

-- Messages with different identifiers have different cache keys.
pub build_cache_key_injective : (m n : ℕ) → build_cache_key m ≡ build_cache_key n → m ≡ n
unfolding build_cache_key
build_cache_key_injective m n e =
    itoa_injective m n (append_injective (bytes "delivery:") (itoa m) (itoa n) e)

-- What a read may show of the value at a key: nothing if there is none, or what it decodes to.
abbrev pub Shown : Json → Option Text → Option CachedDelivery → Type 0
Shown json found none = found ≡ none
Shown json found (some d) = (t : Text) × (found ≡ some t) × (json.unmarshal t ≡ ok d)

decoded :
    (json : Json) (t : Text) (m : Result CachedDelivery) (o : Option CachedDelivery)
    → json.unmarshal t ≡ m
    → get_reply json (ok t) ≡ ok o
    → (d : CachedDelivery) × (o ≡ some d) × (json.unmarshal t ≡ ok d)
decoded json t (ok d) o e h = (d, some_of (sym (rw (e, get_reply) at h)), e)
decoded json t (err x) o e h = absurd (cc (rw (e, get_reply) at h))

get_reply-Shown :
    (json : Json) (found : Option Text) (r : Result Text) (o : Option CachedDelivery)
    → Answers found r
    → get_reply json r ≡ ok o
    → Shown json found o
get_reply-Shown json found (ok t) o a h =
    let (d, e, read) = decoded json t (json.unmarshal t) o refl h in
    subst (Shown json found) (sym e) (t, a, read)
get_reply-Shown json found (err x) none a h = a (ground arith)
get_reply-Shown json found (err x) (some d) a h = ground arith

Shown-self :
    (json : Json) (found : Option Text) (t : Text) (d : CachedDelivery) (o : Option CachedDelivery)
    → found ≡ some t
    → json.unmarshal t ≡ ok d
    → Shown json found o
    → o ≡ some d
Shown-self json found t d none e read s = absurd (cc)
Shown-self json found t d (some x) e read (u, f, again) = ground arith

not_text_eq : (s t : Text) → s ≢ t → text_eq s t ≡ false
not_text_eq s t n = ground (arith, text_eq_iff s t)

module _ {W : Type 0} (r : RedisCache W) (h : IsCacheServer r.client) (j : RoundTrips r.json) where
  open h use {value_at}

  -- A set that succeeds has marshalled the delivery and stored it.
  set_ok_from :
      (n : ℕ) (d : CachedDelivery) (w : W) (m : Result Text)
      → r.json.marshal d ≡ m
      → (set_delivery_cache r n d w).0 ≡ ok tt
      → (t : Text) × (r.json.unmarshal t ≡ ok d)
        × ((k : Text)
            → value_at (set_delivery_cache r n d w).1 k
              ≡ (if text_eq k (build_cache_key n) then some t else value_at w k))
  unfolding set_delivery_cache
  set_ok_from n d w (ok t) e done = (
    t,
    j d t e,
    (λ k.
        rw (e, set_delivery_cache)
          (h.set-ok (build_cache_key n) t r.ttl w k
            (unwrap _ (rw (e, set_delivery_cache) at done)))),
  )
  set_ok_from n d w (err x) e done = absurd (cc (rw (e, set_delivery_cache) at done))

  set_ok :
      (n : ℕ) (d : CachedDelivery) (w : W)
      → (set_delivery_cache r n d w).0 ≡ ok tt
      → (t : Text) × (r.json.unmarshal t ≡ ok d)
        × ((k : Text)
            → value_at (set_delivery_cache r n d w).1 k
              ≡ (if text_eq k (build_cache_key n) then some t else value_at w k))
  set_ok n d w = set_ok_from n d w (r.json.marshal d) refl

  get-Shown :
      (n : ℕ) (w : W) (o : Option CachedDelivery)
      → (get_delivery_cache r n w).0 ≡ ok o
      → Shown r.json (value_at w (build_cache_key n)) o
  unfolding get_delivery_cache
  get-Shown n w o e =
      get_reply-Shown r.json _ (r.client.get (build_cache_key n) w).0 o
        (h.get-answers (build_cache_key n) w) e

  -- After a `SetDeliveryCache` that succeeds, a `GetDeliveryCache` for the same message that
  -- succeeds returns the delivery that was set.
  get-set_self :
      (n : ℕ) (d : CachedDelivery) (w : W) (o : Option CachedDelivery)
      → (set_delivery_cache r n d w).0 ≡ ok tt
      → (get_delivery_cache r n (set_delivery_cache r n d w).1).0 ≡ ok o
      → o ≡ some d
  get-set_self n d w o done e =
      let (t, read, stored) = set_ok n d w done in
      Shown-self r.json _ t d o (stored (build_cache_key n) ∙ rw text_eq_refl refl) read
        (get-Shown n (set_delivery_cache r n d w).1 o e)

  -- A `SetDeliveryCache` that succeeds changes nothing for the other messages: what a later
  -- `GetDeliveryCache` for one of them returns, if it succeeds, is what stood at its key before, or
  -- nothing if nothing stood there.
  get-set_ne :
      (n k : ℕ) (d : CachedDelivery) (w : W) (o : Option CachedDelivery)
      → k ≢ n
      → (set_delivery_cache r n d w).0 ≡ ok tt
      → (get_delivery_cache r k (set_delivery_cache r n d w).1).0 ≡ ok o
      → Shown r.json (value_at w (build_cache_key k)) o
  get-set_ne n k d w o other done e =
      let (t, read, stored) = set_ok n d w done in
      let apart : text_eq (build_cache_key k) (build_cache_key n) ≡ false =
        not_text_eq _ _ (λ same. other (build_cache_key_injective k n same)) in
      subst (λ found. Shown r.json found o) (stored (build_cache_key k) ∙ rw apart refl)
        (get-Shown k (set_delivery_cache r n d w).1 o e)

  -- After a `SetDeliveryCache` for message `n` that succeeds, a `GetDeliveryCache` for message `k` that
  -- succeeds returns the delivery that was set if `k` is `n`, and otherwise what stood at the key of `k`
  -- before, or nothing if nothing stood there.
  pub get-set_lem :
      (n k : ℕ) (d : CachedDelivery) (w : W) (o : Option CachedDelivery)
      → (set_delivery_cache r n d w).0 ≡ ok tt
      → (get_delivery_cache r k (set_delivery_cache r n d w).1).0 ≡ ok o
      → (k ≡ n → o ≡ some d) × (k ≢ n → Shown r.json (value_at w (build_cache_key k)) o)
  get-set_lem n k d w o done e = (
    (λ same.
        get-set_self n d w o done
          (subst (λ i. (get_delivery_cache r i (set_delivery_cache r n d w).1).0 ≡ ok o) same e)),
    (λ other. get-set_ne n k d w o other done e),
  )
