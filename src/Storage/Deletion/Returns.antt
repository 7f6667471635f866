-- ===== src/Storage/Deletion/Returns.antt =====
-- A deletion that nothing stands in the way of comes to its end.
use ska_sdp_mini_control.Prelude.{
  ℕ, ◌≡◌, refl, sym, subst, ap, true, false, some, arith, Bool-cases, inl, inr, Result, ok, ◌>>=◌,
  ◌&&◌, ◌++◌, ◌∷◌, [], String,
}
use ska_sdp_mini_control.Prelude.Ensures.{
  Ensures, returned, raised, bind_ok, then_ok, bind_then, raise_if_passes, weaken,
}
use ska_sdp_mini_control.Models.{FilePath, Observation, deleting, deleted, obs_transitions}
use ska_sdp_mini_control.Files.{Files, exists, is_dir, is_under, parent, mkdir_parents}
use ska_sdp_mini_control.Files.Removal.{is_under_self}
use ska_sdp_mini_control.Files.Allowed.{
  Allows, Never, Reachable, rmtree-Allows, unlink-Allows, rename-Allows, mkdir_parents_lem,
}
use ska_sdp_mini_control.Store.Tables.{Db, obs_row}
use ska_sdp_mini_control.Store.Observations.{get_observation, transition_observation}
use ska_sdp_mini_control.Store.Observations.Outcomes.{
  ObsIds, obs_id, obs_moved, transition_observation_lem,
}
use ska_sdp_mini_control.Storage.{World, on_db, on_files, invalidate_auxiliary_cache}
use ska_sdp_mini_control.Storage.Rules.{on_files_returns}
use ska_sdp_mini_control.Storage.Deletion.{
  trash_of, remove, stash, move_to_trash, empty_trash, raw_removed, finish_observation_deletion,
}

-- The database is still `db`, and nothing is refused.
abbrev Goes : Db → World → Type 0
Goes db t = (t.db ≡ db) × Allows t.files

abbrev NeverRaises : World → Type 0
NeverRaises t = ⊥

remove-Allows :
    (p : FilePath) (fs : Files)
    → Allows fs
    → exists p fs ≡ true
    → Ensures (λ _ t. Allows t) Never (remove p fs)
unfolding remove
remove-Allows p fs free there = bind_ok _ _ fs refl (elim (Bool-cases (is_dir p fs)) [
  | inl tree ↦ rw tree (rmtree-Allows p fs free tree)
  | inr single ↦ rw single (unlink-Allows p fs free single there)
])

move_to_trash-Goes :
    (root src : FilePath) (oid : ℕ) (trash : FilePath) (w : World)
    → Allows w.files
    → exists src w.files && exists trash w.files ≡ false
    → is_dir (parent trash) w.files ≡ true
    → is_under src trash ≡ false
    → Ensures (λ _ t. Goes w.db t) NeverRaises (move_to_trash root src oid trash w)
unfolding move_to_trash stash invalidate_auxiliary_cache
move_to_trash-Goes root src oid trash w free single room apart =
    bind_ok _ _ w refl (elim (Bool-cases (exists src w.files)) [
      | inl live ↦
          let away : exists trash w.files ≡ false = ground arith in
          rw live (
            bind_ok _ _ w refl (
              raise_if_passes _ _ _ w away (
                bind_then (Goes w.db) _ _ w
                  (on_files_returns (λ _ t. Goes w.db t) NeverRaises _ w
                    (weaken (λ _ fs go. (refl, go))
                      (rename-Allows src trash w.files free live away room apart)))
                  λ t go. returned go)))
      | inr gone ↦ rw gone (returned (refl, free))
    ])

empty_trash-Goes :
    (root trash : FilePath) (db : Db) (w : World)
    → Goes db w
    → Ensures (λ _ t. Goes db t) NeverRaises (empty_trash root trash w)
unfolding empty_trash invalidate_auxiliary_cache
empty_trash-Goes root trash db w goes =
    bind_ok _ _ w refl (elim (Bool-cases (exists trash w.files)) [
      | inl there ↦ rw there (
          bind_then (Goes db) _ _ w
            (on_files_returns (λ _ t. Goes db t) NeverRaises _ w
              (weaken (λ _ fs go. (goes.0, go)) (remove-Allows trash w.files goes.1 there)))
            λ t go. returned go)
      | inr empty ↦ rw empty (returned goes)
    ])

parent_last : (p : FilePath) (a b : String) → parent (p ++ a ∷ b ∷ []) ≡ p ++ a ∷ []
unfolding parent
parent_last [] a b = refl
parent_last (c ∷ []) a b = refl
parent_last (c ∷ d ∷ p) a b = ap (λ r. c ∷ r) (parent_last (d ∷ p) a b)

parent_trash : (root : FilePath) (oid : ℕ) → parent (trash_of root oid) ≡ root ++ "trash" ∷ []
unfolding trash_of
parent_trash root oid = parent_last root "trash" _

-- A statement that never raises returns.
returns_tt :
    {P : Unit {0} → World → Type 0} {r : Result (Unit {0}) × World}
    → Ensures P NeverRaises r
    → r.0 ≡ ok tt
returns_tt (returned p) = refl
returns_tt (raised e) = absurd e

get_returns :
    (oid : ℕ) (w : World) (o : Observation)
    → obs_row oid w.db ≡ some o
    → on_db (get_observation oid) w ≡ (ok o, w)
unfolding get_observation on_db ◌>>=◌
get_returns oid w o found = ground (arith, found)

mkdir_returns :
    (root : FilePath) (oid : ℕ) (w : World)
    → Reachable (root ++ "trash" ∷ []) w.files
    → on_files (mkdir_parents (parent (trash_of root oid))) w ≡ (ok tt, w)
unfolding on_files
mkdir_returns root oid w there =
    rw (parent_trash root oid, mkdir_parents_lem (root ++ "trash" ∷ []) w.files there) refl

deleted-NeverRaises :
    (oid : ℕ) (w u : World) (o : Observation)
    → ObsIds w.db
    → obs_row oid w.db ≡ some o
    → o.state ≡ deleting
    → u.db ≡ w.db
    → Ensures
        (λ _ _. Unit)
        NeverRaises
        (on_db (transition_observation o.id deleting deleted raw_removed) u)
unfolding on_db obs_transitions
deleted-NeverRaises oid w u o ids found at same =
    let found' : obs_row o.id w.db ≡ some o =
      subst (λ k. obs_row k w.db ≡ some o) (sym (obs_id oid w.db found)) found in
    let runs = transition_observation_lem o.id deleting deleted raw_removed w.db ids in
    let goes : transition_observation o.id deleting deleted raw_removed w.db
        ≡ (ok tt, obs_moved o.id deleting deleted raw_removed w.db) =
      ground (arith, runs, found', at) in
    rw (same, goes) (returned tt)

-- Finishing the deletion of an observation that is DELETING returns, where ids ascend, nothing is
-- refused, the directories down to the trash are there, not both copies exist, and the trash
-- copy's name does not lie below the live copy. One of the two copies, or both, may be gone
-- already, as a crash leaves them.
pub finish_observation_deletion_returns :
    (root : FilePath) (oid : ℕ) (w : World) (o : Observation)
    → ObsIds w.db
    → obs_row oid w.db ≡ some o
    → o.state ≡ deleting
    → Allows w.files
    → Reachable (root ++ "trash" ∷ []) w.files
    → exists o.ms_path w.files && exists (trash_of root o.id) w.files ≡ false
    → is_under o.ms_path (trash_of root o.id) ≡ false
    → (finish_observation_deletion root oid w).0 ≡ ok tt
unfolding finish_observation_deletion
finish_observation_deletion_returns root oid w o ids found at free there single apart =
    let room : is_dir (parent (trash_of root o.id)) w.files ≡ true =
      rw (parent_trash root o.id)
        (there (root ++ "trash" ∷ []) (is_under_self (root ++ "trash" ∷ []))) in
    returns_tt {P = λ _ _. Unit} (
      bind_ok _ _ w {a = o} (get_returns oid w o found) (
        raise_if_passes _ _ _ w (rw at refl) (
          then_ok _ _ w (mkdir_returns root o.id w there) (
            bind_then (Goes w.db) _ _ w
              (move_to_trash-Goes root o.ms_path o.id (trash_of root o.id) w free single room apart)
              λ t goes.
                bind_then (Goes w.db) _ _ t (empty_trash-Goes root (trash_of root o.id) w.db t goes)
                  λ u goes'. deleted-NeverRaises oid w u o ids found at goes'.0))))
