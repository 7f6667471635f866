-- ===== src/Cli.antt =====
-- cli.py: the commands of the operator, without the parsing of arguments and the printing; the
-- command `run` is in Controller.
pub mod Commands
pub mod Reporting
pub mod Controller
use Prim.Native.String.{compare}
use Prim.Native.Nat.{Ordering}
use text.Mathlib.Text.{◌==◌ as str_eq}
use ska_sdp_mini_control.Prelude.{
  ℕ, ◌+◌, String, Bool, true, false, not, List, [], ◌∷◌, ◌++◌, Action, pure, gets, raise_if, ◌>>=◌,
  ◌>>◌, if◌then◌else◌, map, none, system_exit, os_error, value_error, or_raise, Option, some, ◌||◌,
}
use ska_sdp_mini_control.Prelude.Format.{concat}
use ska_sdp_mini_control.Models.{FilePath, Observation, ProcessingRun}
use ska_sdp_mini_control.Files.{exists, is_dir, rmtree, unlink, path_text}
use ska_sdp_mini_control.Store.Tables.{EntityType, Event}
use ska_sdp_mini_control.Store.Observations.{logical_storage, list_observations, events_for}
use ska_sdp_mini_control.Store.Runs.{list_runs}
use ska_sdp_mini_control.Store.Retries.{run_execution_attempts, observation_execution_attempts}
use ska_sdp_mini_control.Storage.{
  World, PhysicalStorage, in_own_process, on_files, physical_snapshot, ensure_layout,
  invalidate_auxiliary_cache,
}
use ska_sdp_mini_control.Qa.{list_qa_items, accept_run, reprocess_run, discard_failed_run}
use ska_sdp_mini_control.Reconcile.{resolve_observation_drop, iterdir}
use ska_sdp_mini_control.Scheduler.{Config}

-- What `status` prints.
pub record Status : Type 0 where
  pub used : ℕ
  pub reserved : ℕ
  pub threshold : ℕ
  pub quarantine : ℕ
  pub trash : ℕ
  pub charged : ℕ
  pub products : ℕ
  pub observations : List Observation
  pub runs : List ProcessingRun

-- The branch of `status` in main; `main` has it after `build`.
unfoldable pub status : Config → Action World Status
status cfg = do
  (used, reserved) ← gets (λ w. logical_storage w.db)
  phys ← physical_snapshot cfg.data_root
  gets (λ w. record {
    used = used;
    reserved = reserved;
    threshold = cfg.storage_threshold;
    quarantine = phys.quarantine;
    trash = phys.trash;
    charged = used + reserved + phys.quarantine + phys.trash;
    products = phys.products;
    observations = list_observations [] w.db;
    runs = list_runs [] none w.db;
  })

-- One line of `qa list`: the run, its executions and those of its observation.
pub record QaItem : Type 0 where
  pub run : ProcessingRun
  pub executions : ℕ
  pub total_executions : ℕ

unfoldable pub qa_list : Action World (List QaItem)
qa_list = gets (λ w.
    map
      (λ r. record {
        run = r;
        executions = run_execution_attempts r.id w.db;
        total_executions = observation_execution_attempts r.observation_id w.db;
      })
      (list_qa_items w.db))

-- `quarantine purge`, of a name that is one entry of the quarantine
unfoldable pub purge : FilePath → String → Action World Unit
purge root name = do
  there ← gets (λ w. exists (root ++ "quarantine" ∷ name ∷ []) w.files)
  raise_if (not there) (system_exit "not found")
  folder ← gets (λ w. is_dir (root ++ "quarantine" ∷ name ∷ []) w.files)
  if folder
      then on_files (rmtree (root ++ "quarantine" ∷ name ∷ []))
      else on_files (unlink (root ++ "quarantine" ∷ name ∷ []))
  invalidate_auxiliary_cache root

abbrev not_after : Ordering → Bool
not_after Ordering.lt = true
not_after Ordering.eq = true
not_after Ordering.gt = false

abbrev insert_name : String → List String → List String
insert_name name [] = name ∷ []
insert_name name (first ∷ rest) =
    let further = insert_name name rest in
    if not_after (compare name first) then name ∷ first ∷ rest else first ∷ further

-- sorted, of the paths in one directory
unfoldable pub sorted_names : List String → List String
sorted_names [] = []
sorted_names (name ∷ names) = insert_name name (sorted_names names)

-- `quarantine list`
unfoldable pub quarantine_list : FilePath → Action World (List String)
quarantine_list root = do
  listable ← gets (λ w. is_dir (root ++ "quarantine" ∷ []) w.files)
  raise_if (not listable) (os_error (path_text (root ++ "quarantine" ∷ [])))
  gets (λ w. sorted_names (iterdir (root ++ "quarantine" ∷ []) w.files))

abbrev pub drop_note : String
drop_note = "operator acknowledged recovery inconsistency and dropped raw data"

unfoldable pub resolve : FilePath → ℕ → Bool → Action World Unit
resolve root oid drop = do
  raise_if (not drop) (system_exit "only --drop is supported")
  resolve_observation_drop root oid drop_note

-- The commands, as the parser gives them.
pub data Command : Type 0 where
  show_status : Command
  list_qa : Command
  accept reprocess discard : (run_id : ℕ) (note : String) → Command
  timeline : (kind : EntityType) (entity : ℕ) → Command
  resolve_drop : (oid : ℕ) (drop : Bool) → Command
  list_quarantine : Command
  purge_quarantine : (name : String) → Command

-- What a command prints.
pub data Output : Type 0 where
  nothing : Output
  report : Status → Output
  items : List QaItem → Output
  new_run : ℕ → Output
  events : List Event → Output
  names : List String → Output

-- The branches on args.cmd in main.
unfoldable pub run_command : Config → Command → Action World Output
run_command cfg show_status = do s ← status cfg; pure (report s)
run_command cfg list_qa = do xs ← qa_list; pure (items xs)
run_command cfg (accept rid note) = do accept_run cfg.data_root rid note; pure nothing
run_command cfg (reprocess rid note) = do
  new ← reprocess_run cfg.data_root rid note
  pure (new_run new)
run_command cfg (discard rid note) = do discard_failed_run cfg.data_root rid note; pure nothing
run_command cfg (timeline kind entity) = do
  es ← gets (λ w. events_for kind entity w.db)
  pure (events es)
run_command cfg (resolve_drop oid drop) = do resolve cfg.data_root oid drop; pure nothing
run_command cfg list_quarantine = do xs ← quarantine_list cfg.data_root; pure (names xs)
run_command cfg (purge_quarantine name) = do purge cfg.data_root name; pure nothing

pub data RunnerKind : Type 0 where
  fake container : RunnerKind

unfoldable pub runner_kind : String → Option RunnerKind
runner_kind name =
    if str_eq name "fake"
    then some fake
    else if str_eq name "docker" || (str_eq name "podman" || str_eq name "container")
    then some container
    else none

-- `build`: the layout, and the choice of the runner.
unfoldable pub build : FilePath → String → Action World RunnerKind
build root name = do
  ensure_layout root
  or_raise (runner_kind name) (value_error (concat ("unknown runner '" ∷ name ∷ "'" ∷ [])))

-- main, after the arguments and the configuration with the name of its runner are there; each
-- command is a process of its own.
unfoldable pub main : Config → String → Command → Action World Output
main cfg runner command = in_own_process (do build cfg.data_root runner; run_command cfg command)
