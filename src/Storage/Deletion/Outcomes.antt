-- ===== src/Storage/Deletion/Outcomes.antt =====
-- What the removal of raw data ensures, where it returns and where it raises.
use ska_sdp_mini_control.Prelude.{ℕ, ◌≡◌, refl, false, some, Bool-cases, inl, inr}
use ska_sdp_mini_control.Prelude.Ensures.{
  Ensures, returned, bind_ok, bind_then, raise_if-then, weaken, in_any_case, or_raise_last, tx_rule,
}
use ska_sdp_mini_control.Models.{FilePath, ObservationState}
use ska_sdp_mini_control.Files.{Files, exists, is_under, rename, is_dir}
use ska_sdp_mini_control.Files.Removal.{Cleared, rename-clears, rmtree-Cleared, unlink-Cleared}
use ska_sdp_mini_control.Store.Tables.{Db, obs_row}
use ska_sdp_mini_control.Store.Observations.{
  ObservationChange, get_observation, transition_observation, move_observation,
}
use ska_sdp_mini_control.Store.Observations.Outcomes.{obs_moved}
use ska_sdp_mini_control.Storage.{World, invalidate_auxiliary_cache}
use ska_sdp_mini_control.Storage.Rules.{on_files_rule}
use ska_sdp_mini_control.Storage.Deletion.{remove, stash, move_to_trash, empty_trash}

-- A read of an observation returns its row.
pub get_observation_lem :
    (oid : ℕ) (db : Db)
    → Ensures (λ o t. (t ≡ db) × (obs_row oid db ≡ some o)) (λ t. t ≡ db) (get_observation oid db)
unfolding get_observation
get_observation_lem oid db =
    bind_ok _ _ db refl (or_raise_last (obs_row oid db) _ db refl λ o found. (refl, found))

pub transition_observation-Ensures :
    (oid : ℕ) (from to : ObservationState) (c : ObservationChange) (db : Db)
    → Ensures
        (λ _ t. t ≡ obs_moved oid from to c db)
        (λ t. t ≡ db)
        (transition_observation oid from to c db)
unfolding transition_observation move_observation
transition_observation-Ensures oid from to c db = raise_if-then _ _ _ db refl λ legal.
    tx_rule (λ _ t. t ≡ obs_moved oid from to c db) _ db
      (bind_ok _ _ db refl (raise_if-then _ _ _ _ tt λ one. returned refl))

-- The database is still `db`.
abbrev pub Keeps : Db → World → Type 0
Keeps db w = w.db ≡ db

pub remove-Cleared :
    (p : FilePath) (fs : Files) → Ensures (λ _ t. Cleared p fs t) (λ _. Unit) (remove p fs)
unfolding remove
remove-Cleared p fs = bind_ok _ _ fs refl (elim (Bool-cases (is_dir p fs)) [
  | inl tree ↦ rw tree (rmtree-Cleared p fs)
  | inr single ↦ rw single (unlink-Cleared p fs)
])

-- The live copy is gone, if it does not lie below the trash copy's name.
abbrev pub Gone : FilePath → FilePath → Files → Type 0
Gone trash src fs = is_under trash src ≡ false → exists src fs ≡ false

rename-Gone :
    (src trash : FilePath) (fs : Files)
    → Ensures (λ _ t. Gone trash src t) (λ _. Unit) (rename src trash fs)
rename-Gone src trash fs = elim (Bool-cases (is_under trash src)) [
  | inl below ↦ in_any_case _ (λ _ t apart. absurd cc) (λ _. tt)
  | inr apart ↦ weaken (λ _ t gone _. gone) (rename-clears src trash fs apart)
]

pub move_to_trash_lem :
    (root src : FilePath) (oid : ℕ) (trash : FilePath) (db : Db) (w : World)
    → Keeps db w
    → Ensures
        (λ _ t. Keeps db t × Gone trash src t.files)
        (Keeps db)
        (move_to_trash root src oid trash w)
unfolding move_to_trash stash invalidate_auxiliary_cache
move_to_trash_lem root src oid trash db w kept =
    bind_ok _ _ w refl (elim (Bool-cases (exists src w.files)) [
      | inl live ↦ rw live (
          bind_ok _ _ w refl (
            raise_if-then _ _ _ w kept λ free.
              bind_then (λ t. Keeps db t × Gone trash src t.files) _ _ w
                (on_files_rule (λ _ t. Keeps db t × Gone trash src t.files) (Keeps db) _ w
                  (λ fs. kept) (weaken (λ _ fs gone. (kept, gone)) (rename-Gone src trash w.files)))
                λ t done. returned done))
      | inr gone ↦ rw gone (returned (kept, λ _. gone))
    ])

pub empty_trash_lem :
    (root src trash : FilePath) (db : Db) (w : World)
    → Keeps db w
    → Gone trash src w.files
    → Ensures
        (λ _ t. Keeps db t × (Gone trash src t.files × (exists trash t.files ≡ false)))
        (Keeps db)
        (empty_trash root trash w)
unfolding empty_trash invalidate_auxiliary_cache
empty_trash_lem root src trash db w kept gone =
    bind_ok _ _ w refl (elim (Bool-cases (exists trash w.files)) [
      | inl there ↦ rw there (
          bind_then (λ t. Keeps db t × (Gone trash src t.files × (exists trash t.files ≡ false))) _
            _ w
            (on_files_rule
              (λ _ t. Keeps db t × (Gone trash src t.files × (exists trash t.files ≡ false)))
              (Keeps db) _ w (λ fs. kept)
              (weaken (λ _ fs clear. (kept, (λ apart. clear.1 src (gone apart), clear.0)))
                (remove-Cleared trash w.files)))
            λ t done. returned done)
      | inr empty ↦ rw empty (returned (kept, (gone, empty)))
    ])
