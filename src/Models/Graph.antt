-- ===== src/Models/Graph.antt =====
-- What the transition tables of models.py allow.
use ska_sdp_mini_control.Prelude.{◌≡◌, true, arith, ◌↔◌}
use ska_sdp_mini_control.Models.{ObservationState, RunState, obs_state_eq, run_state_eq}

pub obs_state_eq_iff : (a b : ObservationState) → (obs_state_eq a b ≡ true) ↔ (a ≡ b)
obs_state_eq_iff a b = ground arith

pub run_state_eq_iff : (a b : RunState) → (run_state_eq a b ≡ true) ↔ (a ≡ b)
run_state_eq_iff a b = ground arith
