-- ===== src/Tools/Migrate/Again.antt =====
-- Which statements the migrations have executed.
use mathlib.Core.List.{append-nil, append_assoc}
use go_message_dispatcher.Base.{
  ◌≡◌, refl, sym, ap, ◌∙◌, Option, some, List, [], ◌∷◌, ◌++◌, map, Text, Result, ok, err,
  continue_ok, wrap_err-ok,
}
use go_message_dispatcher.Tools.Migrate.{
  Shell, migration_files, run_migration_file, run_files, run_migrations,
}

-- The files do not change, and a statement that succeeds has been executed.
pub record IsShell {W : Type 0} (sh : Shell W) : Type 0 where
  pub contents : Text → Option Text
  pub executed : W → List Text
  pub read-ok : (f c : Text) (w : W) → (sh.read_file f w).0 ≡ ok c → contents f ≡ some c
  pub executed-read : (f : Text) (w : W) → executed (sh.read_file f w).1 ≡ executed w
  pub executed-ok :
      (c : Text) (w : W)
      → (sh.pool.exec c w).0 ≡ ok tt
      → executed (sh.pool.exec c w).1 ≡ executed w ++ c ∷ []

some_contents : (xs ys : List Text) → map some xs ≡ map some ys → xs ≡ ys
some_contents [] [] e = refl
some_contents [] (y ∷ ys) e = absurd (cc)
some_contents (x ∷ xs) [] e = absurd (cc)
some_contents (x ∷ xs) (y ∷ ys) e =
    let head : x ≡ y = cc in
    let tail : map some xs ≡ map some ys = cc in let rest = some_contents xs ys tail in cc

module _ {W : Type 0} (sh : Shell W) (k : IsShell sh) where
  open k use {contents, executed}

  file_from :
      (f : Text) (w : W) (r : Result Text)
      → (sh.read_file f w).0 ≡ r
      → (run_migration_file sh f w).0 ≡ ok tt
      → (c : Text) × (contents f ≡ some c)
        × (executed (run_migration_file sh f w).1 ≡ executed w ++ c ∷ [])
  unfolding run_migration_file
  file_from f w (ok c) e done = (
    c,
    k.read-ok f c w e,
    rw (e, run_migration_file)
        (k.executed-ok c (sh.read_file f w).1
            (wrap_err-ok _ _ _ tt (rw (e, run_migration_file) at done))
          ∙ ap (λ l. l ++ c ∷ []) (k.executed-read f w)),
  )
  file_from f w (err x) e done = absurd (cc (rw (e, run_migration_file) at done))

  -- A run over the files `fs` that succeeds has executed their contents, in order.
  pub run_files_ok :
      (fs : List Text) (w : W)
      → (run_files sh fs w).0 ≡ ok tt
      → (cs : List Text) × (map contents fs ≡ map some cs)
        × (executed (run_files sh fs w).1 ≡ executed w ++ cs)
  unfolding run_files
  run_files_ok [] w done = ([], refl, sym (append-nil (executed w)))
  run_files_ok (f ∷ fs) w done =
      let ran = run_migration_file sh f w in
      let (_, fine, whole) = continue_ok (λ _. run_files sh fs) ran.1 _ tt done in
      let (c, has, first) =
        file_from f w (sh.read_file f w).0 refl (wrap_err-ok _ f ran.0 tt fine) in
      let (cs, have, rest) = run_files_ok fs ran.1 (ap (λ r. r.0) (sym whole) ∙ done) in
      (
        c ∷ cs,
        cc,
        ap (λ r. executed r.1) whole
            ∙ rest
            ∙ ap (λ l. l ++ cs) first
            ∙ append_assoc (executed w) (c ∷ []) cs,
      )

  -- No run remembers what has been executed: two runs that succeed execute the contents of all
  -- migration files twice over, in order.
  pub migrated_twice :
      (w : W)
      → let w' = (run_migrations sh w).1 in
        (run_migrations sh w).0 ≡ ok tt
        → (run_migrations sh w').0 ≡ ok tt
        → (cs : List Text) × (map contents migration_files ≡ map some cs)
          × (executed (run_migrations sh w').1 ≡ executed w ++ (cs ++ cs))
  unfolding run_migrations
  migrated_twice w first second =
      let (cs, have, once) = run_files_ok migration_files w first in
      let (ds, again, twice) =
        run_files_ok migration_files (run_files sh migration_files w).1 second in
      let same : cs ≡ ds = some_contents cs ds (sym have ∙ again) in
      (
        cs,
        have,
        twice
            ∙ ap (λ l. l ++ ds) once
            ∙ append_assoc (executed w) cs ds
            ∙ ap (λ l. executed w ++ (cs ++ l)) (sym same),
      )
