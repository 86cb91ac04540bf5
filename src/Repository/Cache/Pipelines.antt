-- ===== src/Repository/Cache/Pipelines.antt =====
-- `GetMultipleDeliveryCache`: the map that it returns, message by message.
use mathlib.Core.Path.{subst}
use go_message_dispatcher.Base.{
  ℕ, ◌≡◌, refl, ◌∙◌, sym, ◌≢◌, ◌⊎◌, inl, inr, true, Option, none, some, List, [], ◌∷◌, map, arith,
  ◌==◌, ==_iff, if◌then◌else◌, Elem, Bool-cases, Text, Error, redis_nil, is, Result, ok, err,
}
use go_message_dispatcher.Domain.{CachedDelivery, DeliveryMap, find_delivery}
use go_message_dispatcher.Repository.Cache.{
  Json, RedisCache, build_cache_key, put_command, commands, decode_replies, pipeline_failed,
  get_multiple_delivery_cache,
}
use go_message_dispatcher.Repository.Cache.Server.{Answers, AllAnswer, IsCacheServer}
use go_message_dispatcher.Repository.Cache.Deliveries.{Shown}

abbrev pub CommandMap : Type 0
CommandMap = List (ℕ × Result Text)

abbrev pub find_command : ℕ → CommandMap → Option (Result Text)
find_command k [] = none
find_command k ((j, r) ∷ m) = if j == k then some r else find_command k m

-- No key comes twice.
abbrev pub Distinct : CommandMap → Type 0
Distinct [] = Unit
Distinct ((k, r) ∷ m) = (find_command k m ≡ none) × Distinct m

-- The order of a walk over a Go map visits each entry once: lookups are the same, and no key comes
-- twice.
abbrev pub Walks : (CommandMap → CommandMap) → Type 0
Walks walk =
    (m : CommandMap)
    → Distinct m
    → Distinct (walk m) × ((k : ℕ) → find_command k (walk m) ≡ find_command k m)

find-put_command :
    (k j : ℕ) (r : Result Text) (m : CommandMap)
    → find_command j (put_command k r m) ≡ (if k == j then some r else find_command j m)
find-put_command k j r [] = refl
find-put_command k j r ((i, q) ∷ m) = ground (arith, find-put_command k j r m)

put_command-Distinct :
    (k : ℕ) (r : Result Text) (m : CommandMap) → Distinct m → Distinct (put_command k r m)
put_command-Distinct k r [] d = (refl, tt)
put_command-Distinct k r ((i, q) ∷ m) (fresh, d) = elim (Bool-cases (i == k)) [
  | inl e ↦ rw e (subst (λ n. find_command n m ≡ none) ((==_iff i k).0 e) fresh, d)
  | inr e ↦ rw e (find-put_command k i r m ∙ ground arith, put_command-Distinct k r m d)
]

commands-Distinct :
    (ks : List ℕ) (rs : List (Result Text)) (m : CommandMap)
    → Distinct m
    → Distinct (commands ks rs m)
unfolding commands
commands-Distinct [] rs m d = d
commands-Distinct (k ∷ ks) [] m d = d
commands-Distinct (k ∷ ks) (r ∷ rs) m d =
    commands-Distinct ks rs (put_command k r m) (put_command-Distinct k r m d)

-- What one entry of the result shows of its command.
abbrev Decoded : Json → Option (Result Text) → Option CachedDelivery → Type 0
Decoded json none o = o ≡ none
Decoded json (some (ok t)) o = (d : CachedDelivery) × (o ≡ some d) × (json.unmarshal t ≡ ok d)
Decoded json (some (err e)) o = (o ≡ none) × (is e redis_nil ≡ true)

ok_map : {a b : DeliveryMap} → ok a ≡ ok b → a ≡ b
ok_map e = cc

-- The loop over a good value goes on with the rest of the map.
decode_value :
    (json : Json) (k : ℕ) (t : Text) (m : CommandMap) (ds : DeliveryMap) (u : Result CachedDelivery)
    (rest : Result DeliveryMap)
    → json.unmarshal t ≡ u
    → decode_replies json m ≡ rest
    → decode_replies json ((k, ok t) ∷ m) ≡ ok ds
    → (d : CachedDelivery) × (json.unmarshal t ≡ ok d)
      × ((es : DeliveryMap) × (decode_replies json m ≡ ok es) × (ds ≡ (k, d) ∷ es))
unfolding decode_replies
decode_value json k t m ds (ok d) (ok es) e f h =
    (d, e, (es, f, ok_map (sym (rw (e, decode_replies, f) at h))))
decode_value json k t m ds (ok d) (err x) e f h = absurd (cc (rw (e, decode_replies, f) at h))
decode_value json k t m ds (err x) rest e f h = absurd (cc (rw (e, decode_replies) at h))

decode_missing :
    (json : Json) (k : ℕ) (x : Error) (m : CommandMap) (ds : DeliveryMap)
    → decode_replies json ((k, err x) ∷ m) ≡ ok ds
    → (is x redis_nil ≡ true) × (decode_replies json m ≡ ok ds)
unfolding decode_replies
decode_missing json k x m ds h = ground arith

decode-Decoded :
    (json : Json) (m : CommandMap) (ds : DeliveryMap)
    → Distinct m
    → decode_replies json m ≡ ok ds
    → (k : ℕ) → Decoded json (find_command k m) (find_delivery k ds)
unfolding decode_replies
decode-Decoded json [] ds dist h k = rw (← ok_map h) refl
decode-Decoded json ((j, ok t) ∷ m) ds (fresh, dist) h k =
    let (d, read, (es, rest, same)) = decode_value json j t m ds _ _ refl refl h in
    let ih = decode-Decoded json m es dist rest k in
    rw same (elim (Bool-cases (j == k)) [ inl e ↦ rw e (d, refl, read) | inr e ↦ rw e ih ])
decode-Decoded json ((j, err x) ∷ m) ds (fresh, dist) h k =
    let (missing, rest) = decode_missing json j x m ds h in
    let ih = decode-Decoded json m ds dist rest k in
    elim (Bool-cases (j == k)) [
      | inl e ↦
          let absent : find_command k m ≡ none =
            subst (λ n. find_command n m ≡ none) ((==_iff j k).0 e) fresh in
          rw e (subst (λ o. Decoded json o (find_delivery k ds)) absent ih, missing)
      | inr e ↦ rw e ih
    ]

some_reply : {a b : Result Text} → some a ≡ some b → a ≡ b
some_reply e = cc

module _ (value : Text → Option Text) where
  -- Every command of the map has the reply to its own key.
  abbrev IsSound : CommandMap → Type 0
  IsSound m =
      (k : ℕ) (r : Result Text) → find_command k m ≡ some r → Answers (value (build_cache_key k)) r

  put_command-IsSound :
      (k : ℕ) (r : Result Text) (m : CommandMap)
      → IsSound m
      → Answers (value (build_cache_key k)) r
      → IsSound (put_command k r m)
  put_command-IsSound k r m s a j q e = elim (Bool-cases (k == j)) [
    | inl same ↦
        subst (λ n. Answers (value (build_cache_key n)) q) ((==_iff k j).0 same)
          (subst (Answers (value (build_cache_key k)))
            (some_reply (rw same at (sym (find-put_command k j r m) ∙ e))) a)
    | inr other ↦ s j q (rw other at (sym (find-put_command k j r m) ∙ e))
  ]

  commands-IsSound :
      (ks : List ℕ) (rs : List (Result Text)) (m : CommandMap)
      → IsSound m
      → AllAnswer value (map build_cache_key ks) rs
      → IsSound (commands ks rs m)
  unfolding commands
  commands-IsSound [] [] m s a = s
  commands-IsSound [] (r ∷ rs) m s a = s
  commands-IsSound (k ∷ ks) [] m s a = s
  commands-IsSound (k ∷ ks) (r ∷ rs) m s (a, as_rest) =
      commands-IsSound ks rs (put_command k r m) (put_command-IsSound k r m s a) as_rest

  commands_cover :
      (ks : List ℕ) (rs : List (Result Text)) (m : CommandMap) (k : ℕ)
      → AllAnswer value (map build_cache_key ks) rs
      → Elem k ks ⊎ (find_command k m ≢ none)
      → find_command k (commands ks rs m) ≢ none
  unfolding commands
  commands_cover [] [] m k a (inr h) = h
  commands_cover [] [] m k a (inl h) = absurd h
  commands_cover [] (r ∷ rs) m k a h = absurd a
  commands_cover (i ∷ ks) [] m k a h = absurd a
  commands_cover (i ∷ ks) (r ∷ rs) m k (a, as_rest) (inl (inr h)) =
      commands_cover ks rs (put_command i r m) k as_rest (inl h)
  commands_cover (i ∷ ks) (r ∷ rs) m k (a, as_rest) (inl (inl e)) =
      commands_cover ks rs (put_command i r m) k as_rest
        (inr (ground (arith, find-put_command i k r m)))
  commands_cover (i ∷ ks) (r ∷ rs) m k (a, as_rest) (inr h) =
      commands_cover ks rs (put_command i r m) k as_rest
        (inr (ground (arith, find-put_command i k r m)))

Shown-of :
    (json : Json) (found : Option Text) (c : Option (Result Text)) (o : Option CachedDelivery)
    → c ≢ none
    → ((r : Result Text) → c ≡ some r → Answers found r)
    → Decoded json c o
    → Shown json found o
Shown-of json found none o there sound d = absurd (there refl)
Shown-of json found (some (ok t)) o there sound (d, e, read) =
    subst (Shown json found) (sym e) (t, sound (ok t) refl, read)
Shown-of json found (some (err x)) o there sound (e, missing) =
    subst (Shown json found) (sym e) (sound (err x) refl missing)

module _ {W : Type 0} (c : RedisCache W) (h : IsCacheServer c.client) where
  open h use {value_at}

  pipeline_ok :
      (walk : CommandMap → CommandMap) (k : ℕ) (ks : List ℕ) (w : W) (ds : DeliveryMap)
      (f : Option Error)
      → let p = c.client.exec_gets (map build_cache_key (k ∷ ks)) w in
        pipeline_failed p.0.error ≡ f
        → (get_multiple_delivery_cache c walk (k ∷ ks) w).0 ≡ ok ds
        → (f ≡ none) × (decode_replies c.json (walk (commands (k ∷ ks) p.0.replies [])) ≡ ok ds)
  unfolding get_multiple_delivery_cache
  pipeline_ok walk k ks w ds none e done = (refl, rw (e, get_multiple_delivery_cache) at done)
  pipeline_ok walk k ks w ds (some x) e done =
      absurd (cc (rw (e, get_multiple_delivery_cache) at done))

  -- If `GetMultipleDeliveryCache` succeeds, then for each message that was asked for, in whatever
  -- order the runtime walks over the map of the commands and also if messages come twice, its result
  -- holds what the value at the key of that message decodes to, or nothing if there is no such value.
  pub get_multiple_delivery_cache_lem :
      (walk : CommandMap → CommandMap) (ks : List ℕ) (w : W) (ds : DeliveryMap) (k : ℕ)
      → Walks walk
      → (get_multiple_delivery_cache c walk ks w).0 ≡ ok ds
      → Elem k ks
      → Shown c.json (value_at w (build_cache_key k)) (find_delivery k ds)
  get_multiple_delivery_cache_lem walk [] w ds k walks done asked = absurd asked
  get_multiple_delivery_cache_lem walk (i ∷ ks) w ds k walks done asked =
      let ids : List ℕ = i ∷ ks in
      let p = c.client.exec_gets (map build_cache_key ids) w in
      let (clean, decoded) = pipeline_ok walk i ks w ds _ refl done in
      let answers = h.exec-answers (map build_cache_key ids) w clean in
      let m : CommandMap = commands ids p.0.replies [] in
      let (dist, same) = walks m (commands-Distinct ids p.0.replies [] tt) in
      Shown-of c.json _ (find_command k m) (find_delivery k ds)
        (commands_cover (value_at w) ids p.0.replies [] k answers (inl asked))
        (commands-IsSound (value_at w) ids p.0.replies [] (λ j r e. cc) answers k)
        (subst (λ o. Decoded c.json o (find_delivery k ds)) (same k)
          (decode-Decoded c.json (walk m) ds dist decoded k))
