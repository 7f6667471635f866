-- ===== src/Scheduler/Process.antt =====
-- Scheduler._process: the worker of one processing run.
use ska_sdp_mini_control.Prelude.{
  ℕ, String, Bool, true, Exc, Result, Option, none, some, [], ◌∷◌, ◌++◌, Action, pure, gets, modify,
  skip, ◌>>=◌, ◌>>◌, if◌then◌else◌, try_except, suppress_transition_error,
}
use ska_sdp_mini_control.Prelude.Int.{ℤ, pos, negsuc, is_zero}
use ska_sdp_mini_control.Prelude.Format.{concat}
use ska_sdp_mini_control.Models.{
  FilePath, ProcessingRun, RunState, queued, running, failed, awaiting_qa, run_state_eq, run_value,
}
use ska_sdp_mini_control.Files.{exists, parent}
use ska_sdp_mini_control.Store.Tables
use ska_sdp_mini_control.Store.Tables.{run_row}
use ska_sdp_mini_control.Store.Observations.{get_observation, record_event}
use ska_sdp_mini_control.Store.Runs.{RunChange, get_run, transition_run}
use ska_sdp_mini_control.Storage.{World, on_db}
use ska_sdp_mini_control.Scheduler.Observe.{Interference, lose_claim}

-- One run of the runner: the await of a processing slot, and the await of its end.
pub record ProcessRun : Type 0 where
  pub slot : Interference
  pub ending : Interference
  pub outcome : Result ℤ

abbrev pub run_change : String → Option ℤ → RunChange
run_change reason code = record {
  reason = reason;
  exit_code = code;
  qa_verdict = none;
  qa_note = none;
}

unfoldable pub claim_run : ℕ → Action World Bool
claim_run rid =
    try_except
      (do
        on_db (transition_run rid queued running (run_change "processing slot available" none))
        pure true)
      lose_claim

-- run.output_prefix + "-image.fits"
unfoldable pub image_of : FilePath → FilePath
image_of [] = []
image_of (name ∷ []) = concat (name ∷ "-image.fits" ∷ []) ∷ []
image_of (a ∷ b ∷ p) = a ∷ image_of (b ∷ p)

unfoldable pub fail_run : ℕ → RunState → String → ℤ → Action World Unit
fail_run rid from reason code =
    on_db (transition_run rid from failed (run_change reason (some code)))

-- `make_preview` draws the picture of previews.py, and `repr` is the text of an exception.
module _ (make_preview : FilePath → FilePath → Action World Unit) (repr : Exc → String) where
  abbrev pub preview_unavailable : ℕ → Exc → Action World String
  preview_unavailable rid exc = do
    on_db (record_event Tables.run rid (concat ("preview unavailable: " ∷ repr exc ∷ [])))
    pure "processing completed; preview unavailable"

  -- The `try` around make_preview, with the reason that it leaves.
  unfoldable pub preview : ℕ → ProcessingRun → Action World String
  preview rid r =
      try_except
        (do
          make_preview (image_of r.output_prefix) (parent r.output_prefix ++ "preview.png" ∷ [])
          pure "processing completed; preview available")
        (preview_unavailable rid)

  unfoldable pub show_product : ℕ → ProcessingRun → Action World Unit
  show_product rid r = do
    reason ← preview rid r
    on_db (transition_run rid running awaiting_qa (run_change reason (some (pos 0))))

  unfoldable pub product_made : ℕ → ProcessingRun → Action World Unit
  product_made rid r = do
    there ← gets (λ w. exists (image_of r.output_prefix) w.files)
    if there
        then show_product rid r
        else fail_run rid running "expected restored image missing" (pos 0)

  -- What follows the claim of the run.
  unfoldable pub execute : ProcessRun → ℕ → ProcessingRun → Action World Unit
  execute job rid r = do
    on_db (get_observation r.observation_id)
    modify job.ending
    rc ← λ w. (job.outcome, w)
    if is_zero rc then product_made rid r else fail_run rid running "processing exited non-zero" rc

  unfoldable pub process_body : ProcessRun → ℕ → Action World Unit
  process_body job rid = do
    modify job.slot
    r ← on_db (get_run rid)
    claimed ← claim_run rid
    if claimed then execute job rid r else skip

  unfoldable pub fail_processing : ℕ → Exc → ProcessingRun → Action World Unit
  fail_processing rid exc r =
      if run_state_eq r.state queued
      then suppress_transition_error
          (fail_run rid queued "processing worker raised before start" (negsuc 0))
      else if run_state_eq r.state running
      then suppress_transition_error (
          fail_run rid running (concat ("processing worker exception: " ∷ repr exc ∷ []))
            (negsuc 0))
      else on_db (
          record_event Tables.run rid
            (concat ("worker exception after state " ∷ run_value r.state ∷ ": " ∷ repr exc ∷ [])))

  abbrev pub fail_found_run : ℕ → Exc → Option ProcessingRun → Action World Unit
  fail_found_run rid exc none = skip
  fail_found_run rid exc (some r) = fail_processing rid exc r

  -- The outer `except`; a run that is not there is the KeyError after which the worker returns.
  unfoldable pub process_failed_with : ℕ → Exc → Action World Unit
  process_failed_with rid exc = do row ← gets (λ w. run_row rid w.db); fail_found_run rid exc row

  -- Scheduler._process
  unfoldable pub process : ProcessRun → ℕ → Action World Unit
  process job rid = try_except (process_body job rid) (process_failed_with rid)
