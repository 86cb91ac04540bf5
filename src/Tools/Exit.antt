-- ===== src/Tools/Exit.antt =====
-- What the tools leave behind, and what their exit status tells.
use mathlib.Core.Bool.{false≢true}
use go_message_dispatcher.Base.{
  ◌≡◌, refl, sym, ap, ◌∙◌, ◌↔◌, ◌⊎◌, Bool, true, false, arith, Result, ok, err, is_ok, Result-cases,
  inl, inr,
}
use go_message_dispatcher.Config.{Config, Environment, load, database_dsn}
use go_message_dispatcher.Tools.{Pool, Run, status_of, on_database}
use go_message_dispatcher.Tools.Queue.{truncate_statement, clear_messages}
use go_message_dispatcher.Tools.Migrate.{Shell, ping_and_run, migrate, migrate_main}

module _ {W : Type 0} (pool : Pool W) (env : Environment) (w : W) where
  -- The settings are accepted, and the database can be opened.
  abbrev pub Opens : Config → Type 0
  Opens cfg = (load env ≡ ok cfg) × (is_ok (pool.open_db (database_dsn cfg) w).0 ≡ true)

  opening : (r : Result (Unit {0})) → is_ok r ≡ true → r ≡ ok tt
  opening (ok tt) good = refl
  opening (err x) good = absurd (cc)

  module _ (work : Run W) where
    -- The work is done where the opening has left the world, and the pool is closed after it.
    on_database_opened :
        (cfg : Config)
        → Opens cfg
        → let done = work (pool.open_db (database_dsn cfg) w).1 in
          on_database pool env work w ≡ (done.0, pool.close_db done.1)
    unfolding on_database
    on_database_opened cfg (loaded, good) = rw (loaded, on_database, opening _ good) refl

    status_opened :
        (loaded : Result Config)
        → load env ≡ loaded
        → (on_database pool env work w).0 ≡ 0
        → (cfg : Config) × Opens cfg
    unfolding on_database
    status_opened (err x) e zero_status = absurd (cc (rw (e, on_database) at zero_status))
    status_opened (ok cfg) e zero_status =
        elim (Result-cases (pool.open_db (database_dsn cfg) w).0) [
          | inl (a, up) ↦ (cfg, (e, rw up refl))
          | inr (x, down) ↦ absurd (cc (rw (e, on_database, down) at zero_status))
        ]

    -- Status 0 means that the database was opened and that the work ended with 0.
    on_database_status :
        ((on_database pool env work w).0 ≡ 0)
        ↔ ((cfg : Config) × Opens cfg × ((work (pool.open_db (database_dsn cfg) w).1).0 ≡ 0))
    on_database_status = (
      (λ h.
          let (cfg, o) = status_opened (load env) refl h in
          (cfg, o, ap (λ r. r.0) (sym (on_database_opened cfg o)) ∙ h)),
      (λ (cfg, o, done). ap (λ r. r.0) (on_database_opened cfg o) ∙ done),
    )

status_of_iff : (r : Result (Unit {0})) → (status_of r ≡ 0) ↔ (is_ok r ≡ true)
status_of_iff (ok _) = ((λ _. refl), (λ _. refl))
status_of_iff (err x) = ((λ h. absurd (omega arith)), (λ h. absurd (cc)))

migrate_main_status :
    {W : Type 0} (sh : Shell W) (env : Environment) (w : W) (show_version : Bool)
    → ((migrate_main sh show_version env w).0 ≡ 0)
      ↔ ((show_version ≡ true) ⊎ ((cfg : Config) × Opens sh.pool env w cfg))
unfolding migrate_main migrate ping_and_run
migrate_main_status sh env w true = ((λ h. inl refl), (λ h. refl))
migrate_main_status sh env w false =
    let m = on_database_status sh.pool env w (ping_and_run sh) in
    (
      (λ h. let (cfg, o, _) = m.0 h in inr (cfg, o)),
      (λ h. elim h [ inl shown ↦ absurd (false≢true shown) | inr (cfg, o) ↦ m.1 (cfg, o, refl) ]),
    )

-- The exit status of the migration tool is 0 exactly if it shows its version, or the settings are
-- accepted and the database can be opened, so that no failure of the ping or of a migration shows in it. That of the tool which
-- clears the table is 0 exactly if its statement has succeeded as well.
pub exit_status :
    {W : Type 0} (sh : Shell W) (show_version : Bool) (env : Environment) (w : W)
    → (((migrate_main sh show_version env w).0 ≡ 0)
        ↔ ((show_version ≡ true) ⊎ ((cfg : Config) × Opens sh.pool env w cfg)))
      × (((clear_messages sh.pool env w).0 ≡ 0) ↔ (
          (cfg : Config) × Opens sh.pool env w cfg
          × (is_ok (sh.pool.exec truncate_statement (sh.pool.open_db (database_dsn cfg) w).1).0
              ≡ true)))
unfolding clear_messages
exit_status sh show_version env w =
    let c =
      on_database_status sh.pool env w
        (λ v. let r = sh.pool.exec truncate_statement v in (status_of r.0, r.1)) in
    (
      migrate_main_status sh env w show_version,
      (
        (λ h. let (cfg, o, z) = c.0 h in (cfg, o, (status_of_iff _).0 z)),
        (λ (cfg, o, good). c.1 (cfg, o, (status_of_iff _).1 good)),
      ),
    )
