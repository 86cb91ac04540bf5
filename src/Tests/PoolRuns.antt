-- ===== src/Tests/PoolRuns.antt =====
-- The theorem on `initDatabase` at a concrete input: a database that does not answer.
use go_message_dispatcher.Base.{
  ℕ, suc, ◌+◌, ◌-◌, ◌≤◌, ◌≡◌, refl, ◌⊎◌, true, false, ok, err, external, is_ok,
}
use go_message_dispatcher.Config.{settings}
use go_message_dispatcher.Server.Application.{Platform, init_database}
use go_message_dispatcher.Server.Application.Pool.{IsPooled, init_database_lem}
use go_message_dispatcher.Server.Connection.{Connector, IsCounted}
use go_message_dispatcher.Tests.ServerRuns.{environment}

record Line : Type 0 where
  pings : ℕ
  slept : ℕ
  pools : ℕ

abbrev silent : Connector Line
silent = record {
  ping = λ w. (err (external 1), record w { pings = w.pings + 1 });
  sleep = λ n w. record w { slept = w.slept + n };
}

abbrev platform : Platform Line
platform = record {
  build_logger = λ level w. (ok tt, w);
  open_db = λ dsn w. (ok tt, record w { pools = suc w.pools });
  db = silent;
  close_db = λ w. (ok tt, record w { pools = w.pools - 1 });
  redis = λ addr password n. silent;
  close_redis = λ w. (ok tt, w);
  shutdown_http = λ w. (ok tt, w);
}

unfoldable silent-IsCounted : IsCounted silent
silent-IsCounted = record {
  pings = λ w. w.pings;
  slept = λ w. w.slept;
  pings-ping = λ w. refl;
  slept-ping = λ w. refl;
  pings-sleep = λ n w. refl;
  slept-sleep = λ n w. refl;
}

unfoldable platform-IsPooled : IsPooled platform silent-IsCounted
unfolding silent-IsCounted
platform-IsPooled = record {
  pools = λ w. w.pools;
  pools-open = λ dsn w. refl;
  pools-close = λ w. refl;
  pools-ping = λ w. refl;
  pools-sleep = λ n w. refl;
  pings-open = λ dsn w. refl;
  slept-open = λ dsn w. refl;
  pings-close = λ w. refl;
  slept-close = λ w. refl;
}

abbrev unused : Line
unused = record { pings = 0; slept = 0; pools = 0 }

init_database_lem_example :
    let r = init_database platform (settings environment) unused in
    (is_ok r.0 ≡ true
      → (r.1.pools ≡ 0 + 1)
        × (0 + 1 ≤ r.1.pings)
        × (r.1.pings ≤ 0 + 5)
        × (r.1.slept ≤ 0 + 30_000_000_000))
    × (is_ok r.0 ≡ false
        → (r.1.pools ≡ 0)
          × (((r.1.pings ≡ 0) × (r.1.slept ≡ 0))
              ⊎ ((r.1.pings ≡ 0 + 5) × (r.1.slept ≡ 0 + 30_000_000_000))))
unfolding silent-IsCounted platform-IsPooled
init_database_lem_example =
    init_database_lem platform silent-IsCounted platform-IsPooled (settings environment) unused
