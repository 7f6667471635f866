-- ===== src/Qa/Outcomes.antt =====
-- What a verdict leaves of the world, where it returns and where it raises.
use ska_sdp_mini_control.Prelude.{
  ℕ, ◌+◌, ◌≡◌, ◌⊎◌, inl, inr, refl, not, some, String, ◌∷◌, [], ◌>>=◌, ◌>>◌, arith, find-mem,
}
use ska_sdp_mini_control.Prelude.Effects.{Action}
use ska_sdp_mini_control.Prelude.Ensures.{
  Ensures, bind_ok, bind, bind_read, raise_if-then, weaken_both, or_raise_last,
}
use ska_sdp_mini_control.Models.{
  FilePath, ProcessingRun, obs_state_eq, run_state_eq, run_state_in, stored, awaiting_qa, failed,
}
use ska_sdp_mini_control.Store.Tables.{Db, obs_row, run_row, run_has_id}
use ska_sdp_mini_control.Store.Observations.{get_observation}
use ska_sdp_mini_control.Store.Observations.Outcomes.{obs_id}
use ska_sdp_mini_control.Store.Runs.{get_run}
use ska_sdp_mini_control.Store.Verdicts.Outcomes.{
  Accepted, Discarded, Reprocessed, accept_lem, discard_lem, reprocess_lem,
}
use ska_sdp_mini_control.Storage.{World, on_db}
use ska_sdp_mini_control.Storage.Rules.{on_db_rule}
use ska_sdp_mini_control.Storage.Deletion.{finish_observation_deletion}
use ska_sdp_mini_control.Storage.Deletion.Finish.{Deleted, finish_observation_deletion-Deleted}
use ska_sdp_mini_control.Qa.{
  accept_run, reprocess_run, discard_failed_run, product_prefix, process_log,
}

-- The two reads of a verdict leave the world as it was.
pub get_run_in :
    (rid : ℕ) (w : World)
    → Ensures (λ r t. (t ≡ w) × (run_row rid w.db ≡ some r)) (λ t. t ≡ w) (on_db (get_run rid) w)
unfolding get_run
get_run_in rid w =
    on_db_rule (λ r t. (t ≡ w) × (run_row rid w.db ≡ some r)) (λ t. t ≡ w) _ w
      (bind_ok _ _ w.db refl
        (or_raise_last (run_row rid w.db) _ w.db refl λ r found. (refl, found)))

pub get_observation_in :
    (oid : ℕ) (w : World)
    → Ensures
        (λ o t. (t ≡ w) × (obs_row oid w.db ≡ some o))
        (λ t. t ≡ w)
        (on_db (get_observation oid) w)
unfolding get_observation
get_observation_in oid w =
    on_db_rule (λ o t. (t ≡ w) × (obs_row oid w.db ≡ some o)) (λ t. t ≡ w) _ w
      (bind_ok _ _ w.db refl
        (or_raise_last (obs_row oid w.db) _ w.db refl λ o found. (refl, found)))

-- The verdict was written, and the deletion that follows it ran to its end.
unfoldable pub Through : FilePath → (ℕ → Db → Type 0) → World → Type 0
Through root Verdict t = (oid : ℕ) × (db : Db) × Verdict oid db × Deleted root oid db t

-- Nothing was changed, or the verdict is written and the observation is DELETING.
unfoldable pub Halted : World → (ℕ → Db → Type 0) → World → Type 0
Halted w Verdict t = (t ≡ w) ⊎ ((oid : ℕ) × (db : Db) × Verdict oid db × (t.db ≡ db))

-- A verdict that names its observation, and the deletion after it.
verdict-finish :
    (root : FilePath) (V : ℕ → Db → Type 0) (m : Action Db ℕ) (w : World)
    → Ensures V (λ db. db ≡ w.db) (m w.db)
    → Ensures
        (λ _ t. Through root V t)
        (Halted w V)
        ((on_db m >>= finish_observation_deletion root) w)
unfolding Through Halted
verdict-finish root V m w verdict =
    bind (λ oid t. V oid t.db) _ _ w
      (on_db_rule (λ oid t. V oid t.db) (Halted w V) m w
        (weaken_both (λ _ _ h. h) (λ db same. inl (rw same refl)) verdict))
      λ oid t said.
        weaken_both (λ _ u done. (oid, t.db, said, done)) (λ u kept. inr (oid, t.db, said, kept))
          (finish_observation_deletion-Deleted root oid t)

-- The same where the caller knows the observation.
verdict-finish_of :
    (root : FilePath) (V : ℕ → Db → Type 0) (m : Action Db ℕ) (w : World) (oid : ℕ)
    → ((a : ℕ) (db : Db) → V a db → a ≡ oid)
    → Ensures V (λ db. db ≡ w.db) (m w.db)
    → Ensures
        (λ _ t. Through root V t)
        (Halted w V)
        ((on_db m >> finish_observation_deletion root oid) w)
unfolding Through Halted ◌>>◌
verdict-finish_of root V m w oid names verdict =
    bind (λ a t. V a t.db) (on_db m) (λ _. finish_observation_deletion root oid) w
      (on_db_rule (λ a t. V a t.db) (Halted w V) m w
        (weaken_both (λ _ _ h. h) (λ db same. inl (rw same refl)) verdict))
      λ a t said.
        let same : a ≡ oid = names a t.db said in
        let said' : V oid t.db = rw (← same) said in
        weaken_both (λ _ u done. (oid, t.db, said', done)) (λ u kept. inr (oid, t.db, said', kept))
          (finish_observation_deletion-Deleted root oid t)

pub run_id : (rid : ℕ) (db : Db) {r : ProcessingRun} → run_row rid db ≡ some r → r.id ≡ rid
run_id rid db {r} found = ground (arith, find-mem (run_has_id rid) db.runs {x = r} found)

Accepted-owner :
    (rid : ℕ) (note : String) (db : Db) {r : ProcessingRun} (a : ℕ) (t : Db)
    → run_row rid db ≡ some r
    → Accepted rid note db a t
    → a ≡ r.observation_id
unfolding Accepted
Accepted-owner rid note db a t found (q, checked, at, names, same) = let e = checked.run_found in cc

-- `qa accept` either runs through: it writes the verdict, removes the copy of the data in the trash
-- and, where it does not lie below the name of that copy, the live copy, and writes DELETED; or it
-- raises, and then it has changed nothing at all, files included, or it has written the verdict
-- with DELETING, from which the next start resumes.
pub accept_run_lem :
    (root : FilePath) (rid : ℕ) (note : String) (w : World)
    → Ensures
        (λ _ t. Through root (Accepted rid note w.db) t)
        (Halted w (Accepted rid note w.db))
        (accept_run root rid note w)
unfolding accept_run Through Halted
accept_run_lem root rid note w =
    bind_read (λ r. run_row rid w.db ≡ some r) _ _ w
      (weaken_both (λ _ _ h. h) (λ _. inl) (get_run_in rid w))
      λ r found. raise_if-then (not (run_state_eq r.state awaiting_qa)) _ _ w (inl refl) λ at.
        bind_read (λ o. obs_row r.observation_id w.db ≡ some o) _ _ w
          (weaken_both (λ _ _ h. h) (λ _. inl) (get_observation_in r.observation_id w))
          λ o owner. raise_if-then (not (obs_state_eq o.state stored)) _ _ w (inl refl) λ is_stored.
            bind_ok _ _ w refl (
              raise_if-then _ _ _ w (inl refl) λ there. bind_ok _ _ w refl (
                raise_if-then _ _ _ w (inl refl) λ free.
                  rw (run_id rid w.db found, obs_id r.observation_id w.db owner)
                    (verdict-finish_of root (Accepted rid note w.db) _ w r.observation_id
                      (λ a db said. Accepted-owner rid note w.db a db found said)
                      (accept_lem rid note w.db))))

-- `qa discard` does the same with its verdict.
pub discard_failed_run_lem :
    (root : FilePath) (rid : ℕ) (note : String) (w : World)
    → Ensures
        (λ _ t. Through root (Discarded rid note w.db) t)
        (Halted w (Discarded rid note w.db))
        (discard_failed_run root rid note w)
unfolding discard_failed_run Halted
discard_failed_run_lem root rid note w =
    bind_read (λ r. run_row rid w.db ≡ some r) _ _ w
      (weaken_both (λ _ _ h. h) (λ _. inl) (get_run_in rid w))
      λ r found. raise_if-then (not (run_state_eq r.state failed)) _ _ w (inl refl) λ at.
        bind_read (λ o. obs_row r.observation_id w.db ≡ some o) _ _ w
          (weaken_both (λ _ _ h. h) (λ _. inl) (get_observation_in r.observation_id w))
          λ o owner. raise_if-then (not (obs_state_eq o.state stored)) _ _ w (inl refl) λ is_stored.
            bind_ok _ _ w refl (
              raise_if-then _ _ _ w (inl refl) λ there. bind_ok _ _ w refl (
                raise_if-then _ _ _ w (inl refl) λ free.
                  rw (run_id rid w.db found) (
                    verdict-finish root (Discarded rid note w.db) _ w (discard_lem rid note w.db))))

-- `qa reprocess` raises and changes nothing, files included, or it supersedes the run and queues
-- the next attempt; it never touches a file.
pub reprocess_run_lem :
    (root : FilePath) (rid : ℕ) (note : String) (w : World)
    → Ensures
        (λ new_rid t.
          (r : ProcessingRun) × (run_row rid w.db ≡ some r)
          × Reprocessed rid
              (product_prefix root r.observation_id (r.attempt + 1))
              (process_log root r.observation_id (r.attempt + 1))
              note
              w.db
              new_rid
              t.db
          × (t.files ≡ w.files))
        (λ t. t ≡ w)
        (reprocess_run root rid note w)
unfolding reprocess_run
reprocess_run_lem root rid note w =
    bind_read (λ r. run_row rid w.db ≡ some r) _ _ w (get_run_in rid w)
      λ r found.
        raise_if-then (not (run_state_in r.state (awaiting_qa ∷ failed ∷ []))) _ _ w refl λ at.
          bind_read (λ o. obs_row r.observation_id w.db ≡ some o) _ _ w
            (get_observation_in r.observation_id w)
            λ o owner. bind_ok _ _ w refl (
              raise_if-then _ _ _ w refl λ there. bind_ok _ _ w refl (
                raise_if-then _ _ _ w refl λ free.
                  rw (run_id rid w.db found, obs_id r.observation_id w.db owner)
                    (on_db_rule _ (λ t. t ≡ w) _ w
                      (weaken_both (λ new_rid db done. (r, found, done, refl))
                        (λ db same. rw same refl)
                        (reprocess_lem rid (product_prefix root r.observation_id (r.attempt + 1))
                          (process_log root r.observation_id (r.attempt + 1)) note w.db)))))
