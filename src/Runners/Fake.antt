-- ===== src/Runners/Fake.antt =====
-- runners/fake.py: the runner of the tests, which makes the files itself. Its delays are left out;
-- the bytes that numpy's `save` writes for an array are a parameter.
pub mod Sizes
pub mod Place
pub mod Measured
pub mod Products
use Prim.Native.Nat.{min, max}
use Prim.Native.String.{len}
use ska_sdp_mini_control.Prelude.{
  ℕ, zero, suc, ◌+◌, ◌-◌, ◌*◌, String, Bool, true, false, ◌||◌, List, [], ◌∷◌, ◌++◌, Action, ok,
  pure, gets, modify, skip, ◌>>=◌, ◌>>◌, if◌then◌else◌, ◌==◌, any, leb, for_each,
}
use ska_sdp_mini_control.Prelude.Int.{ℤ, pos}
use ska_sdp_mini_control.Prelude.Format.{concat}
use ska_sdp_mini_control.Models.{FilePath}
use ska_sdp_mini_control.Files.{Files, parent, mkdir_parents}
use ska_sdp_mini_control.Files.Writing.{write_file}

-- The sets and the dictionaries that a test fills, and the counts of the calls; a dictionary gives
-- 0 for a key that it does not have.
pub record FakeRunner : Type 0 where
  pub observation_size : ℕ
  pub fail_observations : List ℕ
  pub fail_runs : List ℕ
  pub fail_run_times : ℕ → ℕ
  pub process_calls : ℕ → ℕ

-- The runner with the files.
pub record Bench : Type 0 where
  pub runner : FakeRunner
  pub files : Files

abbrev on_disk : {A : Type 0} → Action Files A → Action Bench A
on_disk m b = let (r, fs) = m b.files in (r, record b { files = fs })

abbrev pub is_member : ℕ → List ℕ → Bool
is_member k ks = any (λ j. j == k) ks

-- `log_path.write_text(text)` and `return rc`
abbrev finish : FilePath → String → ℕ → Action Files ℤ
finish log_path text rc = do write_file log_path (len text); pure (pos rc)

abbrev pub marker : String
marker = "Measurement Set v2 fake fixture\n"

-- The length of `chunk`.
abbrev pub chunk_size : ℕ → ℕ
chunk_size remaining = min (1024 * 1024) (max 1 remaining)

-- `while remaining:`, with at most `rounds` rounds; what remains in the end, and what is written.
unfoldable pub write_chunks : (rounds chunk remaining written : ℕ) → ℕ × ℕ
write_chunks zero chunk remaining written = (remaining, written)
write_chunks (suc rounds) chunk remaining written =
    let n = min chunk remaining in
    let rest = write_chunks rounds chunk (remaining - n) (written + n) in
    if remaining == 0 then (remaining, written) else rest

-- The bytes of the file DATA; a round writes at least one.
unfoldable pub data_bytes : ℕ → ℕ
data_bytes size =
    let remaining = size - len marker in
    let (left_over, written) = write_chunks remaining (chunk_size remaining) remaining 0 in written

unfoldable pub write_measurement_set : ℕ → FilePath → Action Files Unit
write_measurement_set size ms_path = do
  mkdir_parents ms_path
  write_file (ms_path ++ "DATA" ∷ []) (data_bytes size)
  write_file (ms_path ++ "table.info" ∷ []) (len marker)

-- FakeRunner.observe
unfoldable pub observe : FakeRunner → ℕ → FilePath → FilePath → Action Files ℤ
observe r oid ms_path log_path = do
  mkdir_parents (parent log_path)
  if is_member oid r.fail_observations then finish log_path "fake observation failure\n" 2 else (do
    write_measurement_set r.observation_size ms_path
    finish log_path "fake observation success\n" 0)

-- str(output_prefix) + suffix
unfoldable pub with_suffix : FilePath → String → FilePath
with_suffix [] suffix = []
with_suffix (name ∷ []) suffix = concat (name ∷ suffix ∷ []) ∷ []
with_suffix (a ∷ b ∷ p) suffix = a ∷ with_suffix (b ∷ p) suffix

abbrev pub count_call : ℕ → FakeRunner → FakeRunner
count_call rid r = record r {
  process_calls = λ k. if k == rid then suc (r.process_calls rid) else r.process_calls k;
}

-- `saved` are the bytes that np.save writes for the array of a suffix.
module _ (saved : String → ℕ) where
  unfoldable pub write_products : FilePath → Action Files Unit
  write_products output_prefix =
      for_each ("-image.fits" ∷ "-model.fits" ∷ "-residual.fits" ∷ [])
        λ suffix. write_file (with_suffix output_prefix suffix) (saved suffix)

  unfoldable pub make_products : FilePath → FilePath → Action Files ℤ
  make_products output_prefix log_path = do
    mkdir_parents (parent output_prefix)
    write_products output_prefix
    finish log_path "fake processing success\n" 0

  -- FakeRunner.process
  unfoldable pub process : ℕ → FilePath → FilePath → Action Bench ℤ
  process rid output_prefix log_path = do
    on_disk (mkdir_parents (parent log_path))
    modify (λ b. record b { runner = count_call rid b.runner })
    r ← gets (λ b. b.runner)
    if is_member rid r.fail_runs || leb (r.process_calls rid) (r.fail_run_times rid)
        then on_disk (finish log_path "fake processing failure\n" 3)
        else on_disk (make_products output_prefix log_path)

-- FakeRunner.abort_observation and FakeRunner.kill_managed, which have nothing to stop
unfoldable pub abort_observation : ℕ → Action Bench Unit
abort_observation oid = skip

unfoldable pub kill_managed : Action Bench Unit
kill_managed = skip
