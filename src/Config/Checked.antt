-- ===== src/Config/Checked.antt =====
-- What holds of a configuration that loads.
use ska_sdp_mini_control.Prelude.{
  zero, suc, ◌≤◌, ◌≡◌, refl, true, false, ltb, arith, ok, [], ◌>>=◌, ◌>>◌, any, find, select,
  sum_where,
}
use ska_sdp_mini_control.Prelude.Int.{ℤ, pos, negsuc}
use ska_sdp_mini_control.Prelude.Ensures.{
  Ensures, returned, bind, or_raise-bind, raise_if-then, in_any_case,
}
use ska_sdp_mini_control.Models.{FilePath}
use ska_sdp_mini_control.Files.{exists, mtime, strip, path_eq}
use ska_sdp_mini_control.Store.Tables.{empty_db}
use ska_sdp_mini_control.Store.Observations.{logical_storage}
use ska_sdp_mini_control.Storage.{
  World, auxiliary_charged_storage, refresh, cached_sizes, mtime_signature, apparent_size,
}
use ska_sdp_mini_control.Scheduler.{can_admit}
use ska_sdp_mini_control.Config.{
  Python, RawConfig, LoadedConfig, below_one, check_config, load_config, for_scheduler,
}

-- A store and a data directory with nothing in them.
abbrev pub fresh_world : World
fresh_world = record {
  db = empty_db;
  files = record { entries = []; clock = 0; refuses = λ p. false };
  aux_cache = [];
}

abbrev pub CanRun : LoadedConfig → Type 0
CanRun cfg =
    (1 ≤ (for_scheduler cfg).max_processing_attempts)
    × (below_one cfg.max_parallel_processing ≡ false)
    × ((can_admit (for_scheduler cfg) fresh_world).0 ≡ ok true)

can_admit-fresh :
    (cfg : LoadedConfig)
    → ltb cfg.storage_threshold cfg.observation_reservation ≡ false
    → (can_admit (for_scheduler cfg) fresh_world).0 ≡ ok true
unfolding can_admit logical_storage auxiliary_charged_storage refresh cached_sizes mtime_signature
    apparent_size exists path_eq mtime strip any find select sum_where ◌>>=◌ ◌>>◌
can_admit-fresh cfg fits = ground arith

one_at_least :
    (k : ℤ) (cfg : LoadedConfig)
    → cfg.max_processing_attempts ≡ k
    → below_one k ≡ false
    → 1 ≤ (for_scheduler cfg).max_processing_attempts
one_at_least (pos zero) cfg e h = absurd cc
one_at_least (pos (suc n)) cfg e h = rw e (omega arith)
one_at_least (negsuc n) cfg e h = absurd cc

module _ {S : Type 0} (python : Python) where
  check_config_lem :
      (cfg : LoadedConfig) (s : S)
      → Ensures (λ c _. CanRun c) (λ _. Unit) (check_config python cfg s)
  unfolding check_config
  check_config_lem cfg s = raise_if-then _ _ _ s tt λ fits. raise_if-then _ _ _ s tt λ parallel.
      raise_if-then _ _ _ s tt λ attempts. returned (
        one_at_least cfg.max_processing_attempts cfg refl attempts,
        parallel,
        can_admit-fresh cfg fits,
      )

  -- A configuration that loads lets a run be executed at least once and at least one run be
  -- processed at a time, and can_admit of an empty data directory answers yes under it.
  pub load_config_lem :
      (root : FilePath) (raw : RawConfig) (s : S)
      → Ensures (λ cfg _. CanRun cfg) (λ _. Unit) (load_config python root raw s)
  unfolding load_config
  load_config_lem root raw s = or_raise-bind _ _ _ s tt λ action known.
      bind (λ _ _. Unit) _ _ s (in_any_case _ (λ _ _. tt) (λ _. tt))
        λ threshold t _.
          bind (λ _ _. Unit) _ _ t (in_any_case _ (λ _ _. tt) (λ _. tt))
            λ reservation u _.
              bind (λ _ _. Unit) _ _ u (in_any_case _ (λ _ _. tt) (λ _. tt))
                λ fake_size v _. check_config_lem _ v
