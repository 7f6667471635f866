-- ===== src/Tests/Fakes.antt =====
-- The fake runner on a directory that is ready for it.
use ska_sdp_mini_control.Prelude.{◌≡◌, ◌⊎◌, ◌==◌, refl, false, [], ◌∷◌, if◌then◌else◌}
use ska_sdp_mini_control.Prelude.Ensures.{Ensures}
use ska_sdp_mini_control.Models.{FilePath}
use ska_sdp_mini_control.Files.{Files, dir}
use ska_sdp_mini_control.Runners.Fake.{
  FakeRunner, Bench, count_call, process, data_bytes, write_chunks,
}
use ska_sdp_mini_control.Runners.Fake.Products.{Processed, process_lem}

-- The second call of run 1 goes through.
abbrev pub runner : FakeRunner
runner = record {
  observation_size = 40;
  fail_observations = [];
  fail_runs = [];
  fail_run_times = λ rid. if rid == 1 then 1 else 0;
  process_calls = λ rid. 0;
}

abbrev ready : Files
ready = record {
  entries = ([], dir 0) ∷ ("data" ∷ [], dir 0) ∷ ("logs" ∷ [], dir 0) ∷ [];
  clock = 1;
  refuses = λ p. false;
}

abbrev pub log_path : FilePath
log_path = "logs" ∷ "observe.log" ∷ []

all_bytes : data_bytes 40 ≡ 8
unfolding data_bytes write_chunks
all_bytes = refl

abbrev bench : Bench
bench = record { runner = runner; files = ready }

process_lem_example :
    Ensures
      (Processed (λ suffix. 16) runner 1 ("data" ∷ "product" ∷ []))
      (λ t. (t.runner ≡ runner) ⊎ (t.runner ≡ count_call 1 runner))
      (process (λ suffix. 16) 1 ("data" ∷ "product" ∷ []) log_path bench)
process_lem_example = process_lem (λ suffix. 16) 1 ("data" ∷ "product" ∷ []) log_path bench
