-- ===== src/Storage/Quarantine/Outcomes.antt =====
-- What the move into quarantine ensures.
use ska_sdp_mini_control.Prelude.{◌≡◌, refl, false, true, String, some}
use ska_sdp_mini_control.Prelude.Ensures.{
  Ensures, returned, bind_ok, then_ok, bind_then, raise_if-then, or_raise-bind, weaken_both,
  in_any_case,
}
use ska_sdp_mini_control.Models.{FilePath}
use ska_sdp_mini_control.Files.{exists, is_under, parent}
use ska_sdp_mini_control.Files.Kept.{Has, mkdir_parents-Has, rename-Has}
use ska_sdp_mini_control.Store.Tables.{Db}
use ska_sdp_mini_control.Storage.{World, invalidate_auxiliary_cache}
use ska_sdp_mini_control.Storage.Rules.{on_files_rule, on_files_returns}
use ska_sdp_mini_control.Storage.Deletion.Outcomes.{Keeps}
use ska_sdp_mini_control.Storage.Quarantine.{unique_quarantine_target, quarantine_path}

-- The move into quarantine never touches the database.
pub quarantine_path-Keeps :
    (root source : FilePath) (label : String) (db : Db) (w : World)
    → Keeps db w
    → Ensures (λ _ t. Keeps db t) (Keeps db) (quarantine_path root source label w)
unfolding quarantine_path invalidate_auxiliary_cache
quarantine_path-Keeps root source label db w kept = bind_ok _ _ w refl (
    raise_if-then _ _ _ w kept λ there. bind_ok _ _ w refl (
      or_raise-bind (unique_quarantine_target root label w.files) _ _ w kept λ q free.
        bind_then (Keeps db) _ _ w
          (on_files_rule (λ _ t. Keeps db t) (Keeps db) _ w (λ _. kept)
            (in_any_case _ (λ _ _. kept) (λ _. tt)))
          λ t kept'.
            bind_then (Keeps db) _ _ t
              (on_files_rule (λ _ t. Keeps db t) (Keeps db) _ t (λ _. kept')
                (in_any_case _ (λ _ _. kept') (λ _. tt)))
              λ u kept''. then_ok _ _ u refl (returned kept'')))

-- The database is the same, and the path is there.
abbrev pub KeepsWith : Db → FilePath → World → Type 0
KeepsWith db p t = Keeps db t × Has p t.files

-- Any other file `p` is still there after the move into quarantine, whether it returns or raises.
-- Where it returns, the data has left its old name for the free name `q`; `p` and the source lie
-- below neither name.
pub quarantine_path_lem :
    (root source : FilePath) (label : String) (w : World) (p q : FilePath)
    → unique_quarantine_target root label w.files ≡ some q
    → is_under q source ≡ false
    → is_under source p ≡ false
    → is_under q p ≡ false
    → exists p w.files ≡ true
    → Ensures
        (λ r t.
          (r ≡ q)
          × KeepsWith w.db p t
          × (exists source t.files ≡ false)
          × (exists q t.files ≡ true))
        (KeepsWith w.db p)
        (quarantine_path root source label w)
unfolding quarantine_path invalidate_auxiliary_cache
quarantine_path_lem root source label w p q target apart old new has = bind_ok _ _ w refl (
    raise_if-then _ _ _ w (refl, has)
      λ there. bind_ok _ _ w refl (
        rw target (
          bind_ok _ _ w refl (
            bind_then (KeepsWith w.db p) _ _ w
              (on_files_returns (λ _ t. KeepsWith w.db p t) (KeepsWith w.db p) _ w
                (weaken_both (λ _ fs h. (refl, h)) (λ fs h. (refl, h))
                  (mkdir_parents-Has (parent q) p w.files has)))
              λ t (kept, has').
                bind_then
                  (λ u.
                    KeepsWith w.db p u
                    × (exists source u.files ≡ false)
                    × (exists q u.files ≡ true))
                  _ _ t
                  (on_files_returns
                    (λ _ u.
                      KeepsWith w.db p u
                      × (exists source u.files ≡ false)
                      × (exists q u.files ≡ true))
                    (KeepsWith w.db p) _ t
                    (weaken_both (λ _ fs h. ((kept, h.0), h.1, h.2)) (λ fs h. (kept, h))
                      (rename-Has source q p t.files apart old new has')))
                  λ u done. then_ok _ _ u refl (returned (refl, done.0, done.1, done.2))))))
