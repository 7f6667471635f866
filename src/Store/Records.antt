-- ===== src/Store/Records.antt =====
-- store.py, Store._obs and Store._run: the rows of the tables as the columns that SQLite keeps,
-- where a state is its text and a flag is a number.
use text.Mathlib.Text.{◌==◌ as str_eq}
use text.Mathlib.TextEquality.{eq_iff}
use ska_sdp_mini_control.Prelude.{
  ℕ, ◌≤◌, ◌≡◌, ◌↔◌, refl, not, Bool-cases, inl, inr, Option, none, some, arith, String, List, [],
  ◌∷◌, find, find-mem, Result, ok, err, value_error, ◌==◌, if◌then◌else◌,
}
use ska_sdp_mini_control.Prelude.Int.{ℤ}
use ska_sdp_mini_control.Prelude.Format.{concat}
use ska_sdp_mini_control.Models.{
  FilePath, Observation, ProcessingRun, ObservationState, RunState, obs_value, run_value, planned,
  observing, stored, deleting, deleted, observe_failed, inconsistent, queued, running, awaiting_qa,
  accepted, superseded, failed, discarded,
}

pub record ObservationColumns : Type 0 where
  pub id : ℕ
  pub state : String
  pub ms_path : FilePath
  pub size_bytes : ℕ
  pub reserved_bytes : ℕ
  pub error : Option String

pub record RunColumns : Type 0 where
  pub id : ℕ
  pub observation_id : ℕ
  pub attempt : ℕ
  pub state : String
  pub output_prefix : FilePath
  pub log_path : FilePath
  pub exit_code : Option ℤ
  pub qa_verdict : Option String
  pub qa_note : Option String
  pub retry_exhausted : ℕ

-- The members of the two StrEnums, in order.
abbrev obs_states : List ObservationState
obs_states = planned ∷ observing ∷ stored ∷ deleting ∷ deleted ∷ observe_failed ∷ inconsistent ∷ []

abbrev run_states : List RunState
run_states = queued ∷ running ∷ awaiting_qa ∷ accepted ∷ superseded ∷ failed ∷ discarded ∷ []

-- ObservationState(text) and RunState(text)
unfoldable pub obs_state_of : String → Option ObservationState
obs_state_of text = find (λ s. str_eq (obs_value s) text) obs_states

unfoldable pub run_state_of : String → Option RunState
run_state_of text = find (λ s. str_eq (run_value s) text) run_states

abbrev pub obs_with : ObservationColumns → Option ObservationState → Result Observation
obs_with c none = err (value_error (concat (c.state ∷ " is not a valid ObservationState" ∷ [])))
obs_with c (some s) = ok (record {
  id = c.id;
  state = s;
  ms_path = c.ms_path;
  size_bytes = c.size_bytes;
  reserved_bytes = c.reserved_bytes;
  error = c.error;
})

-- Store._obs
unfoldable pub from_obs_row : ObservationColumns → Result Observation
from_obs_row c = obs_with c (obs_state_of c.state)

abbrev pub run_with : RunColumns → Option RunState → Result ProcessingRun
run_with c none = err (value_error (concat (c.state ∷ " is not a valid RunState" ∷ [])))
run_with c (some s) = ok (record {
  id = c.id;
  observation_id = c.observation_id;
  attempt = c.attempt;
  state = s;
  output_prefix = c.output_prefix;
  log_path = c.log_path;
  exit_code = c.exit_code;
  qa_verdict = c.qa_verdict;
  qa_note = c.qa_note;
  retry_exhausted = not (c.retry_exhausted == 0);
})

-- Store._run
unfoldable pub from_run_row : RunColumns → Result ProcessingRun
from_run_row c = run_with c (run_state_of c.state)

-- The columns that stand for a row: the statements write a state by its `value`, and the flag as 0
-- or 1.
unfoldable pub obs_columns : Observation → ObservationColumns
obs_columns o = record {
  id = o.id;
  state = obs_value o.state;
  ms_path = o.ms_path;
  size_bytes = o.size_bytes;
  reserved_bytes = o.reserved_bytes;
  error = o.error;
}

unfoldable pub run_columns : ProcessingRun → RunColumns
run_columns r = record {
  id = r.id;
  observation_id = r.observation_id;
  attempt = r.attempt;
  state = run_value r.state;
  output_prefix = r.output_prefix;
  log_path = r.log_path;
  exit_code = r.exit_code;
  qa_verdict = r.qa_verdict;
  qa_note = r.qa_note;
  retry_exhausted = if r.retry_exhausted then 1 else 0;
}

obs_state_of-value : (s : ObservationState) → obs_state_of (obs_value s) ≡ some s
unfolding obs_state_of obs_value find
obs_state_of-value planned = refl
obs_state_of-value observing = refl
obs_state_of-value stored = refl
obs_state_of-value deleting = refl
obs_state_of-value deleted = refl
obs_state_of-value observe_failed = refl
obs_state_of-value inconsistent = refl

run_state_of-value : (s : RunState) → run_state_of (run_value s) ≡ some s
unfolding run_state_of run_value find
run_state_of-value queued = refl
run_state_of-value running = refl
run_state_of-value awaiting_qa = refl
run_state_of-value accepted = refl
run_state_of-value superseded = refl
run_state_of-value failed = refl
run_state_of-value discarded = refl

value-obs_state_of :
    (text : String) {s : ObservationState} → obs_state_of text ≡ some s → obs_value s ≡ text
unfolding obs_state_of
value-obs_state_of text {s} found =
    (eq_iff (obs_value s) text).0
      (find-mem (λ t. str_eq (obs_value t) text) obs_states {x = s} found).1

value-run_state_of :
    (text : String) {s : RunState} → run_state_of text ≡ some s → run_value s ≡ text
unfolding run_state_of
value-run_state_of text {s} found =
    (eq_iff (run_value s) text).0
      (find-mem (λ t. str_eq (run_value t) text) run_states {x = s} found).1

obs_with_iff :
    (c : ObservationColumns) (o : Observation) (s : Option ObservationState)
    → ((t : ObservationState) → s ≡ some t → obs_value t ≡ c.state)
    → obs_with c s ≡ ok o
    → c ≡ obs_columns o
unfolding obs_columns
obs_with_iff c o none text h = cc
obs_with_iff c o (some t) text h = let e = text t refl in ground (arith, h, e)

-- A row of the table of observations is read as an observation just where its columns are those
-- that stand for it; a row whose state is no member's text is read as none.
pub from_obs_row_lem :
    (c : ObservationColumns) (o : Observation) → (from_obs_row c ≡ ok o) ↔ (c ≡ obs_columns o)
unfolding from_obs_row obs_columns
from_obs_row_lem c o = (
  obs_with_iff c o (obs_state_of c.state) (λ t found. value-obs_state_of c.state found),
  λ same. rw (same, obs_state_of-value o.state) refl,
)

run_with_iff :
    (c : RunColumns) (r : ProcessingRun) (s : Option RunState)
    → c.retry_exhausted ≤ 1
    → ((t : RunState) → s ≡ some t → run_value t ≡ c.state)
    → run_with c s ≡ ok r
    → c ≡ run_columns r
unfolding run_columns
run_with_iff c r none flag text h = cc
run_with_iff c r (some t) flag text h = let e = text t refl in ground (arith, h, e)

-- A row of the table of runs whose flag is 0 or 1 is read as a run just where its columns are those
-- that stand for it; a row whose state is no member's text is read as none.
pub from_run_row_lem :
    (c : RunColumns) (r : ProcessingRun)
    → c.retry_exhausted ≤ 1
    → (from_run_row c ≡ ok r) ↔ (c ≡ run_columns r)
unfolding from_run_row run_columns
from_run_row_lem c r flag = (
  run_with_iff c r (run_state_of c.state) flag (λ t found. value-run_state_of c.state found),
  λ same.
      rw (same, run_state_of-value r.state)
        (elim (Bool-cases r.retry_exhausted) [
          | inl set ↦ rw set (ground arith)
          | inr clear ↦ rw clear (ground arith)
        ]),
)
