-- ===== src/Storage/Deletion/Finish.antt =====
-- The two removals from end to end.
use ska_sdp_mini_control.Prelude.{
  ℕ, ◌≡◌, refl, true, false, not, some, String, arith, Bool-cases, inl, inr, ◌∷◌, [],
}
use ska_sdp_mini_control.Prelude.Ensures.{
  Ensures, returned, bind_ok, then_ok, bind_read, bind_then, raise_if-then, weaken, in_any_case,
}
use ska_sdp_mini_control.Models.{
  FilePath, Observation, obs_state_eq, deleting, deleted, inconsistent, obs_state_in,
}
use ska_sdp_mini_control.Models.Graph.{obs_state_eq_iff}
use ska_sdp_mini_control.Files.{Files, exists, is_under}
use ska_sdp_mini_control.Files.Removal.{Cleared}
use ska_sdp_mini_control.Store.Tables.{Db, obs_row}
use ska_sdp_mini_control.Store.Observations.{get_observation}
use ska_sdp_mini_control.Store.Observations.Outcomes.{obs_moved}
use ska_sdp_mini_control.Storage.{World, invalidate_auxiliary_cache}
use ska_sdp_mini_control.Storage.Rules.{on_db_rule, on_files_rule}
use ska_sdp_mini_control.Storage.Deletion.{
  trash_of, remove_if_there, raw_removed, dropped_by_operator, finish_observation_deletion,
  force_drop_observation_data,
}
use ska_sdp_mini_control.Storage.Deletion.Outcomes.{
  Keeps, Gone, get_observation_lem, transition_observation-Ensures, remove-Cleared,
  move_to_trash_lem, empty_trash_lem,
}

-- The observation was DELETING; now the row is DELETED, and neither copy of its data is there.
unfoldable pub Finished : FilePath → ℕ → Db → World → Type 0
Finished root oid db t =
    (o : Observation) × (obs_row oid db ≡ some o)
    × (o.state ≡ deleting)
    × (t.db ≡ obs_moved o.id deleting deleted raw_removed db)
    × (exists o.ms_path t.files ≡ false)
    × (exists (trash_of root o.id) t.files ≡ false)

-- The same, where nothing is known of the two paths.
unfoldable pub Deleted : FilePath → ℕ → Db → World → Type 0
Deleted root oid db t =
    (o : Observation) × (obs_row oid db ≡ some o)
    × (o.state ≡ deleting)
    × (t.db ≡ obs_moved o.id deleting deleted raw_removed db)
    × Gone (trash_of root o.id) o.ms_path t.files
    × (exists (trash_of root o.id) t.files ≡ false)

pub finish_observation_deletion-Deleted :
    (root : FilePath) (oid : ℕ) (w : World)
    → Ensures (λ _ t. Deleted root oid w.db t) (Keeps w.db) (finish_observation_deletion root oid w)
unfolding finish_observation_deletion Deleted
finish_observation_deletion-Deleted root oid w =
    bind_read (λ o. obs_row oid w.db ≡ some o) _ _ w
      (on_db_rule (λ o t. (t ≡ w) × (obs_row oid w.db ≡ some o)) (Keeps w.db) (get_observation oid)
        w (weaken (λ o db (same, found). (rw same refl, found)) (get_observation_lem oid w.db)))
      λ o found. raise_if-then (not (obs_state_eq o.state deleting)) _ _ w refl λ at.
        bind_then (Keeps w.db) _ _ w
          (on_files_rule (λ _ t. Keeps w.db t) (Keeps w.db) _ w (λ fs. refl)
            (in_any_case _ (λ a fs. refl) (λ fs. tt)))
          λ t kept.
            bind_then (λ t. Keeps w.db t × Gone (trash_of root o.id) o.ms_path t.files) _ _ t
              (move_to_trash_lem root o.ms_path o.id (trash_of root o.id) w.db t kept)
              λ u (kept', gone).
                bind_then
                  (λ t.
                    Keeps w.db t
                    × (Gone (trash_of root o.id) o.ms_path t.files
                        × (exists (trash_of root o.id) t.files ≡ false)))
                  _ _ u (empty_trash_lem root o.ms_path (trash_of root o.id) w.db u kept' gone)
                  λ v (kept'', (gone', empty)).
                    on_db_rule (λ _ t. Deleted root oid w.db t) (Keeps w.db) _ v
                      (rw kept'' (
                        weaken
                          (λ _ db done. (
                            o,
                            found,
                            ground (arith, obs_state_eq_iff o.state deleting),
                            done,
                            gone',
                            empty,
                          ))
                          (transition_observation-Ensures o.id deleting deleted raw_removed w.db)))

-- Finishing a deletion raises and leaves the database as it was, or it has found the observation
-- DELETING, has written DELETED, and neither the live nor the trash copy exists any more, where
-- the live copy does not lie below the trash copy's name.
pub finish_observation_deletion_lem :
    (root : FilePath) (oid : ℕ) (w : World)
    → ((o : Observation)
        → obs_row oid w.db ≡ some o
        → is_under (trash_of root o.id) o.ms_path ≡ false)
    → Ensures
        (λ _ t. Finished root oid w.db t)
        (Keeps w.db)
        (finish_observation_deletion root oid w)
unfolding Finished Deleted
finish_observation_deletion_lem root oid w apart =
    weaken
      (λ _ t (o, found, at, written, gone, empty).
        (o, found, at, written, gone (apart o found), empty))
      (finish_observation_deletion-Deleted root oid w)

remove_if_there-Cleared :
    (p : FilePath) (fs : Files) → Ensures (λ _ t. Cleared p fs t) (λ _. Unit) (remove_if_there p fs)
unfolding remove_if_there
remove_if_there-Cleared p fs = bind_ok _ _ fs refl (elim (Bool-cases (exists p fs)) [
  | inl there ↦ rw there (remove-Cleared p fs)
  | inr away ↦ rw away (returned (away, λ q h. h))
])

-- The observation was DELETING or INCONSISTENT; now the row is DELETED, and neither copy of its
-- data is there.
unfoldable pub Dropped : FilePath → ℕ → String → Db → World → Type 0
Dropped root oid reason db t =
    (o : Observation) × (obs_row oid db ≡ some o)
    × (obs_state_in o.state (deleting ∷ inconsistent ∷ []) ≡ true)
    × (t.db ≡ obs_moved o.id o.state deleted (dropped_by_operator reason) db)
    × (exists o.ms_path t.files ≡ false)
    × (exists (trash_of root o.id) t.files ≡ false)

-- Dropping an observation raises and leaves the database as it was, or it has found the
-- observation DELETING or INCONSISTENT, has written DELETED, and neither the live nor the trash
-- copy exists any more.
pub force_drop_observation_data_lem :
    (root : FilePath) (oid : ℕ) (reason : String) (w : World)
    → Ensures
        (λ _ t. Dropped root oid reason w.db t)
        (Keeps w.db)
        (force_drop_observation_data root oid reason w)
unfolding force_drop_observation_data Dropped invalidate_auxiliary_cache
force_drop_observation_data_lem root oid reason w =
    bind_read (λ o. obs_row oid w.db ≡ some o) _ _ w
      (on_db_rule (λ o t. (t ≡ w) × (obs_row oid w.db ≡ some o)) (Keeps w.db) (get_observation oid)
        w (weaken (λ o db (same, found). (rw same refl, found)) (get_observation_lem oid w.db)))
      λ o found.
        raise_if-then (not (obs_state_in o.state (deleting ∷ inconsistent ∷ []))) _ _ w refl λ at.
          bind_then (λ t. Keeps w.db t × (exists o.ms_path t.files ≡ false)) _ _ w
            (on_files_rule (λ _ t. Keeps w.db t × (exists o.ms_path t.files ≡ false)) (Keeps w.db) _
              w (λ fs. refl)
              (weaken (λ _ fs clear. (refl, clear.0)) (remove_if_there-Cleared o.ms_path w.files)))
            λ t (kept, gone).
              bind_then
                (λ u.
                  Keeps w.db u
                  × ((exists o.ms_path u.files ≡ false)
                      × (exists (trash_of root o.id) u.files ≡ false)))
                _ _ t
                (on_files_rule
                  (λ _ u.
                    Keeps w.db u
                    × ((exists o.ms_path u.files ≡ false)
                        × (exists (trash_of root o.id) u.files ≡ false)))
                  (Keeps w.db) _ t (λ fs. kept)
                  (weaken (λ _ fs clear. (kept, (clear.1 o.ms_path gone, clear.0)))
                    (remove_if_there-Cleared (trash_of root o.id) t.files)))
                λ u (kept', (gone', empty)). then_ok _ _ u refl (
                  on_db_rule (λ _ t. Dropped root oid reason w.db t) (Keeps w.db) _ _
                    (rw kept' (
                      weaken (λ _ db done. (o, found, ground arith, done, gone', empty))
                        (transition_observation-Ensures o.id o.state deleted
                          (dropped_by_operator reason) w.db))))
