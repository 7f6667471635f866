-- ===== src/Storage/Rules.antt =====
-- What a call of the store or of the operating system ensures of the world.
use ska_sdp_mini_control.Prelude.{◌≡◌, refl, Result, ok, Action}
use ska_sdp_mini_control.Prelude.Ensures.{Ensures, returned, raised}
use ska_sdp_mini_control.Files.{Files}
use ska_sdp_mini_control.Store.Tables.{Db}
use ska_sdp_mini_control.Storage.{World, on_db, on_files}

module _ {A : Type 0} (P : A → World → Type 0) (E : World → Type 0) where
  pub on_db_rule :
      (m : Action Db A) (w : World)
      → Ensures (λ a db. P a (record w { db = db })) (λ db. E (record w { db = db })) (m w.db)
      → Ensures P E (on_db m w)
  unfolding on_db
  on_db_rule m w h = go (m w.db) h
    where
      go :
          (r : Result A × Db)
          → Ensures (λ a db. P a (record w { db = db })) (λ db. E (record w { db = db })) r
          → Ensures P E (r.0, record w { db = r.1 })
      go _ (returned p) = returned p
      go _ (raised e) = raised e

  -- A call that is known to return.
  pub on_db_returns :
      (m : Action Db A) (w : World) (a : A)
      → (m w.db).0 ≡ ok a
      → P a (record w { db = (m w.db).1 })
      → Ensures P E (on_db m w)
  unfolding on_db
  on_db_returns m w a e p = rw e (returned p)

  pub on_files_rule :
      (m : Action Files A) (w : World)
      → ((fs : Files) → E (record w { files = fs }))
      → Ensures (λ a fs. P a (record w { files = fs })) (λ _. Unit) (m w.files)
      → Ensures P E (on_files m w)
  unfolding on_files
  on_files_rule m w any_error h = go (m w.files) h
    where
      go :
          (r : Result A × Files)
          → Ensures (λ a fs. P a (record w { files = fs })) (λ _. Unit) r
          → Ensures P E (r.0, record w { files = r.1 })
      go _ (returned p) = returned p
      go (_, fs) (raised e) = raised (any_error fs)

  pub on_files_returns :
      (m : Action Files A) (w : World)
      → Ensures
          (λ a fs. P a (record w { files = fs }))
          (λ fs. E (record w { files = fs }))
          (m w.files)
      → Ensures P E (on_files m w)
  unfolding on_files
  on_files_returns m w h = go (m w.files) h
    where
      go :
          (r : Result A × Files)
          → Ensures (λ a fs. P a (record w { files = fs })) (λ fs. E (record w { files = fs })) r
          → Ensures P E (r.0, record w { files = r.1 })
      go _ (returned p) = returned p
      go _ (raised e) = raised e

-- What a method that returns leaves of the world.
pub on_db_goes :
    {A : Type 0} (m : Action Db A) (w : World) {a : A} {db : Db}
    → m w.db ≡ (ok a, db)
    → on_db m w ≡ (ok a, record w { db = db })
unfolding on_db
on_db_goes m w e = rw e refl
