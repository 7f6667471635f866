-- ===== src/Runners.antt =====
-- runners/container.py: the commands for a container engine, and the gate that waits until its
-- containers are gone. The engine is a program that the source only calls: its state `C` and its
-- answers are parameters.
pub mod Gate
pub mod Fake
pub mod Launch
pub mod Labels
use mathlib.Core.Option
use ska_sdp_mini_control.Prelude.{
  ℕ, zero, suc, ok, String, Bool, true, false, Exc, Option, none, some, List, [], ◌∷◌, ◌++◌, map,
  Action, pure, raise, gets, modify, skip, or_raise, ◌>>=◌, ◌>>◌, if◌then◌else◌, for_each,
  runtime_error, value_error,
}
use ska_sdp_mini_control.Prelude.Int.{ℤ}
use ska_sdp_mini_control.Prelude.Format.{concat, decimal, zero_pad}
use ska_sdp_mini_control.Models.{FilePath}
use ska_sdp_mini_control.Files.{path_text, strip}

-- What a command and its end give: the exit code and the ids that it prints.
pub record Answer : Type 0 where
  pub exit_code : ℤ
  pub ids : List String

-- The engine: the calls of its program with a list of words, and the sleep of 0.05 seconds.
pub record Engine (C : Type 0) : Type 0 where
  pub exec : List String → C → Answer × C
  pub sleep : C → C

-- self.executable, self.image, self.observe_script, self.process_script and self.data_root
pub record ContainerRunner : Type 0 where
  pub executable : String
  pub image : String
  pub observe_script : String
  pub process_script : String
  pub data_root : FilePath

abbrev of_id : String → List String
of_id cid = concat ("id=" ∷ cid ∷ []) ∷ []

unfoldable pub abort_filters : ℕ → List String
abort_filters oid =
    "label=sdpctl.managed=true"
    ∷ "label=sdpctl.kind=observation"
    ∷ concat ("label=sdpctl.observation_id=" ∷ decimal oid ∷ [])
    ∷ []

abbrev pub kill_filters : List String
kill_filters = "label=sdpctl.managed=true" ∷ []

-- `args += ["--filter", f]`, for each filter
abbrev pub filter_options : List String → List String
filter_options [] = []
filter_options (f ∷ fs) = "--filter" ∷ f ∷ filter_options fs

abbrev pub none_left : List String → Bool
none_left [] = true
none_left _ = false

module _ {C : Type 0} (engine : Engine C) (runner : ContainerRunner) where
  -- ContainerRunner._container_ids; the exit code is not looked at.
  unfoldable pub container_ids : List String → Action C (List String)
  container_ids filters c =
      let (answer, c') =
        engine.exec (runner.executable ∷ "ps" ∷ "-aq" ∷ filter_options filters) c in
      (ok answer.ids, c')

  -- The rounds of `for _ in range(100)` that are left.
  unfoldable pub wait_gone : ℕ → String → Action C Unit
  wait_gone zero cid =
      raise (runtime_error (concat ("container " ∷ cid ∷ " still exists after rm -f" ∷ [])))
  wait_gone (suc rounds) cid =
      let again = wait_gone rounds cid in
      do
        ids ← container_ids (of_id cid)
        if none_left ids then skip else (do modify engine.sleep; again)

  -- ContainerRunner._remove_and_wait_gone
  unfoldable pub remove_and_wait_gone : String → Action C Unit
  remove_and_wait_gone cid = do
    modify (λ c. (engine.exec (runner.executable ∷ "rm" ∷ "-f" ∷ cid ∷ []) c).1)
    wait_gone 100 cid

  unfoldable pub remove_all : List String → Action C Unit
  remove_all filters = do ids ← container_ids filters; for_each ids remove_and_wait_gone

  -- ContainerRunner.abort_observation
  unfoldable pub abort_observation : ℕ → Action C Unit
  abort_observation oid = remove_all (abort_filters oid)

  -- ContainerRunner.kill_managed
  unfoldable pub kill_managed : Action C Unit
  kill_managed = remove_all kill_filters

-- The relative path as text, Path.as_posix.
unfoldable pub as_posix : FilePath → String
as_posix [] = "."
as_posix (a ∷ []) = a
as_posix (a ∷ b ∷ p) = concat (a ∷ "/" ∷ as_posix (b ∷ p) ∷ [])

-- ContainerRunner._container_path, of a path that is resolved
unfoldable pub container_path : FilePath → FilePath → Option String
container_path root p = Option.map (λ rel. concat ("/data/" ∷ as_posix rel ∷ [])) (strip root p)

abbrev pub launch : ContainerRunner → String → List String → List String
launch r name labels =
    r.executable ∷ "run" ∷ "--rm" ∷ "--name" ∷ name ∷ "--label" ∷ "sdpctl.managed=true" ∷ []
    ++ labels
    ++ "-v" ∷ concat (path_text r.data_root ∷ ":/data" ∷ []) ∷ r.image ∷ []

-- The command of ContainerRunner.observe; `none` is the ValueError of a path out of the root.
unfoldable pub observe_command : ContainerRunner → ℕ → FilePath → Option (List String)
observe_command r oid ms_path =
    Option.map
      (λ ms.
        launch r (concat ("sdpctl-observe-" ∷ zero_pad 6 oid ∷ [])) (
          "--label"
          ∷ "sdpctl.kind=observation"
          ∷ "--label"
          ∷ concat ("sdpctl.observation_id=" ∷ decimal oid ∷ [])
          ∷ [])
        ++ r.observe_script ∷ ms ∷ [])
      (container_path r.data_root ms_path)

abbrev pub both_paths :
    Option String → Option String → (String → String → List String) → Option (List String)
both_paths (some a) (some b) f = some (f a b)
both_paths _ _ f = none

-- The command of ContainerRunner.process.
unfoldable pub process_command :
    ContainerRunner → ℕ → ℕ → FilePath → FilePath → Option (List String)
process_command r oid rid ms_path output_prefix =
    both_paths (container_path r.data_root ms_path) (container_path r.data_root output_prefix)
      λ ms out.
        launch r (concat ("sdpctl-process-" ∷ zero_pad 6 oid ∷ "-" ∷ zero_pad 6 rid ∷ [])) (
          "--label"
          ∷ "sdpctl.kind=processing"
          ∷ "--label"
          ∷ concat ("sdpctl.observation_id=" ∷ decimal oid ∷ [])
          ∷ "--label"
          ∷ concat ("sdpctl.run_id=" ∷ decimal rid ∷ [])
          ∷ [])
        ++ r.process_script ∷ ms ∷ out ∷ []
