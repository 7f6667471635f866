-- ===== src/Runners/Launch.antt =====
-- runners/container.py: the launch of a container with its log. The engine's program is a parameter:
-- what it does to the files until it ends, and its exit code.
use ska_sdp_mini_control.Prelude.{
  ℕ, String, Option, none, some, List, Action, or_raise, value_error, ◌>>=◌, ◌>>◌, [], ◌∷◌,
}
use ska_sdp_mini_control.Prelude.Int.{ℤ}
use ska_sdp_mini_control.Prelude.Format.{concat}
use ska_sdp_mini_control.Models.{FilePath}
use ska_sdp_mini_control.Files.{Files, parent, mkdir_parents, path_text}
use ska_sdp_mini_control.Files.Writing.{write_file}
use ska_sdp_mini_control.Runners.{ContainerRunner, container_path, observe_command, process_command}

abbrev outside : FilePath → FilePath → String
outside root p =
    concat ("'" ∷ path_text p ∷ "' is not in the subpath of '" ∷ path_text root ∷ "'" ∷ [])

module _ (spawn : List String → FilePath → Action Files ℤ) (r : ContainerRunner) where
  -- ContainerRunner._run
  unfoldable pub run_engine : List String → FilePath → Action Files ℤ
  run_engine args log_path = do
    mkdir_parents (parent log_path)
    write_file log_path 0
    spawn args log_path

  -- ContainerRunner.observe
  unfoldable pub observe : ℕ → FilePath → FilePath → Action Files ℤ
  observe oid ms_path log_path = do
    mkdir_parents (parent ms_path)
    args ← or_raise (observe_command r oid ms_path) (value_error (outside r.data_root ms_path))
    run_engine args log_path

  -- The first of two paths that is not below the root, which the message names.
  abbrev first_outside : Option String → FilePath → FilePath → FilePath
  first_outside none p q = p
  first_outside (some _) p q = q

  -- ContainerRunner.process
  unfoldable pub process : ℕ → ℕ → FilePath → FilePath → FilePath → Action Files ℤ
  process oid rid ms_path output_prefix log_path = do
    mkdir_parents (parent output_prefix)
    args ← or_raise (process_command r oid rid ms_path output_prefix) (
        value_error (
          outside r.data_root
            (first_outside (container_path r.data_root ms_path) ms_path output_prefix)))
    run_engine args log_path
