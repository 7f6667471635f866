-- ===== src/Store/Runs/Outcomes.antt =====
-- What the transactions on runs return and write, on every branch.
use ska_sdp_mini_control.Prelude.{
  tx, ◌>>=◌, ◌>>◌, ℕ, ◌≡◌, Bool, false, some, none, Option, ok, err, arith, update,
  transition_error, count, if◌then◌else◌,
}
use ska_sdp_mini_control.Prelude.Keyed.{IsAscending, count_guarded}
use ska_sdp_mini_control.Models.{
  ProcessingRun, RunState, run_state_eq, run_state_in, run_transitions,
}
use ska_sdp_mini_control.Store.Tables
use ska_sdp_mini_control.Store.Tables.{Db, run_state, run_in_state, run_row, add_event}
use ska_sdp_mini_control.Store.Runs.{
  RunChange, change_run, move_run, transition_run, run_guard_failed, illegal_run_move,
}

abbrev pub RunIds : Db → Type 0
RunIds db = IsAscending (λ (r : ProcessingRun). r.id) 0 db.runs db.run_seq

-- The run is there, in the state that the caller expects.
abbrev pub run_is : Option ProcessingRun → RunState → Bool
run_is none s = false
run_is (some r) s = run_state_eq r.state s

pub count-run_in_state :
    (rid : ℕ) (s : RunState) (db : Db)
    → RunIds db
    → count (run_in_state rid s) db.runs ≡ (if run_is (run_row rid db) s then 1 else 0)
count-run_in_state rid s db ids = ground (
  arith,
  count_guarded (λ (r : ProcessingRun). r.id) rid 0 (λ r. run_state_eq r.state s) db.runs db.run_seq
      ids,
)

-- The store after the move of a run.
abbrev pub run_moved : ℕ → RunState → RunState → RunChange → Db → Db
run_moved rid from to c db =
    add_event Tables.run rid (some (run_state from)) (some (run_state to)) c.reason
      (record db { runs = update (run_in_state rid from) (change_run to c) db.runs })

-- Where ids ascend, a transition that the table does not allow, or whose run is not there in the expected state,
-- raises and changes nothing; any other writes the row and one event.
pub transition_run_lem :
    (rid : ℕ) (from to : RunState) (c : RunChange) (db : Db)
    → RunIds db
    → transition_run rid from to c db ≡ (
        if run_state_in to (run_transitions from)
        then if run_is (run_row rid db) from
          then (ok tt, run_moved rid from to c db)
          else (err (transition_error (run_guard_failed rid from)), db)
        else (err (transition_error (illegal_run_move from to)), db))
unfolding transition_run move_run tx ◌>>=◌ ◌>>◌
transition_run_lem rid from to c db ids = ground (arith, count-run_in_state rid from db ids)
