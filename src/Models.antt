-- ===== src/Models.antt =====
-- models.py: the two state machines and the rows that carry them. A row's text column `state`
-- is the enumeration itself; the time stamps, which nothing reads, are left out.
pub mod Graph
use ska_sdp_mini_control.Prelude.{ℕ, String, Bool, true, false, ◌||◌, Option, List, [], ◌∷◌}
use ska_sdp_mini_control.Prelude.Int.{ℤ}

pub data ObservationState : Type 0 where
  planned observing stored deleting deleted observe_failed inconsistent : ObservationState

pub data RunState : Type 0 where
  queued running awaiting_qa accepted superseded failed discarded : RunState

-- The values of the two StrEnums, which are their text in messages too.
unfoldable pub obs_value : ObservationState → String
obs_value planned = "PLANNED"
obs_value observing = "OBSERVING"
obs_value stored = "STORED"
obs_value deleting = "DELETING"
obs_value deleted = "DELETED"
obs_value observe_failed = "OBSERVE_FAILED"
obs_value inconsistent = "INCONSISTENT"

unfoldable pub run_value : RunState → String
run_value queued = "QUEUED"
run_value running = "RUNNING"
run_value awaiting_qa = "AWAITING_QA"
run_value accepted = "ACCEPTED"
run_value superseded = "SUPERSEDED"
run_value failed = "FAILED"
run_value discarded = "DISCARDED"

abbrev pub obs_state_eq : ObservationState → ObservationState → Bool
obs_state_eq planned planned = true
obs_state_eq observing observing = true
obs_state_eq stored stored = true
obs_state_eq deleting deleting = true
obs_state_eq deleted deleted = true
obs_state_eq observe_failed observe_failed = true
obs_state_eq inconsistent inconsistent = true
obs_state_eq _ _ = false

abbrev pub run_state_eq : RunState → RunState → Bool
run_state_eq queued queued = true
run_state_eq running running = true
run_state_eq awaiting_qa awaiting_qa = true
run_state_eq accepted accepted = true
run_state_eq superseded superseded = true
run_state_eq failed failed = true
run_state_eq discarded discarded = true
run_state_eq _ _ = false

abbrev pub obs_state_in : ObservationState → List ObservationState → Bool
obs_state_in s [] = false
obs_state_in s (t ∷ ts) = obs_state_eq s t || obs_state_in s ts

abbrev pub run_state_in : RunState → List RunState → Bool
run_state_in s [] = false
run_state_in s (t ∷ ts) = run_state_eq s t || run_state_in s ts

-- OBS_TRANSITIONS
unfoldable pub obs_transitions : ObservationState → List ObservationState
obs_transitions planned = observing ∷ observe_failed ∷ []
obs_transitions observing = stored ∷ observe_failed ∷ []
obs_transitions stored = deleting ∷ inconsistent ∷ []
obs_transitions deleting = deleted ∷ inconsistent ∷ []
obs_transitions observe_failed = []
obs_transitions inconsistent = deleted ∷ []
obs_transitions deleted = []

-- RUN_TRANSITIONS
unfoldable pub run_transitions : RunState → List RunState
run_transitions queued = running ∷ failed ∷ []
run_transitions running = awaiting_qa ∷ failed ∷ []
run_transitions awaiting_qa = accepted ∷ superseded ∷ []
run_transitions failed = queued ∷ superseded ∷ discarded ∷ []
run_transitions accepted = []
run_transitions superseded = []
run_transitions discarded = []

-- A file path by its parts; `Path` and `str` are its two spellings in the source.
abbrev pub FilePath : Type 0
FilePath = List String

pub record Observation : Type 0 where
  pub id : ℕ
  pub state : ObservationState
  pub ms_path : FilePath
  pub size_bytes : ℕ
  pub reserved_bytes : ℕ
  pub error : Option String

pub record ProcessingRun : Type 0 where
  pub id : ℕ
  pub observation_id : ℕ
  pub attempt : ℕ
  pub state : RunState
  pub output_prefix : FilePath
  pub log_path : FilePath
  pub exit_code : Option ℤ
  pub qa_verdict : Option String
  pub qa_note : Option String
  pub retry_exhausted : Bool
