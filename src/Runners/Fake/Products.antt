-- ===== src/Runners/Fake/Products.antt =====
-- The fake processing: how often it fails, and what it leaves.
use Prim.Native.String.{len}
use ska_sdp_mini_control.Prelude.{
  ℕ, suc, ◌≡◌, ◌⊎◌, refl, ap, true, false, String, [], ◌∷◌, Bool, Bool-cases, inl, inr, ◌>>◌, ◌||◌,
  if◌then◌else◌, ==_refl, leb, for_each, Action, Result, skip,
}
use ska_sdp_mini_control.Prelude.Int.{ℤ, pos}
use ska_sdp_mini_control.Prelude.Ensures.{
  Ensures, returned, raised, bind_then, bind_ok, then_ok, weaken_both, in_any_case,
}
use ska_sdp_mini_control.Models.{FilePath}
use ska_sdp_mini_control.Files.{Files, parent, mkdir_parents}
use ska_sdp_mini_control.Files.Kept.{Has, write_file-Has, write_file-makes}
use ska_sdp_mini_control.Files.Writing.{write_file}
use ska_sdp_mini_control.Scheduler.Process.{image_of}
use ska_sdp_mini_control.Runners.Fake.{
  FakeRunner, Bench, is_member, count_call, with_suffix, write_products, make_products, process,
  on_disk, finish,
}

-- The image is where the scheduler looks for it.
with_suffix-image_of : (p : FilePath) → with_suffix p "-image.fits" ≡ image_of p
unfolding with_suffix image_of
with_suffix-image_of [] = refl
with_suffix-image_of (a ∷ []) = refl
with_suffix-image_of (a ∷ b ∷ p) = ap (λ q. a ∷ q) (with_suffix-image_of (b ∷ p))

-- What holds of the files, and that the runner is as it was.
on_disk-Ensures :
    {A : Type 0} {P : A → Files → Type 0} (m : Action Files A) (b : Bench)
    → Ensures P (λ _. Unit {0}) (m b.files)
    → Ensures (λ a t. (t.runner ≡ b.runner) × P a t.files) (λ t. t.runner ≡ b.runner) (on_disk m b)
on_disk-Ensures {A} {P} m b h = go (m b.files) h
  where
    go :
        (x : Result A × Files)
        → Ensures P (λ _. Unit {0}) x
        → Ensures
            (λ a t. (t.runner ≡ b.runner) × P a t.files)
            (λ t. t.runner ≡ b.runner)
            (x.0, record b { files = x.1 })
    go _ (returned p) = returned (refl, p)
    go _ (raised e) = raised refl

finish_lem :
    (p log_path : FilePath) (text : String) (rc : ℕ) (fs : Files)
    → Has p fs
    → Ensures (λ c t. (c ≡ pos rc) × Has p t) (λ _. Unit {0}) (finish log_path text rc fs)
finish_lem p log_path text rc fs has =
    bind_then (Has p) _ _ fs (write_file-Has log_path p (len text) fs has)
      (λ t kept. returned (refl, kept))

finish_code :
    (log_path : FilePath) (text : String) (rc : ℕ) (fs : Files)
    → Ensures (λ c _. c ≡ pos rc) (λ _. Unit {0}) (finish log_path text rc fs)
finish_code log_path text rc fs =
    bind_then (λ _. Unit {0}) _ _ fs
      (in_any_case (write_file log_path (len text) fs) (λ _ _. tt) (λ _. tt)) (λ t _. returned refl)

module _ (saved : String → ℕ) where
  write_products-Has :
      (output_prefix : FilePath) (fs : Files)
      → Ensures
          (λ _ t. Has (image_of output_prefix) t)
          (λ _. Unit {0})
          (write_products saved output_prefix fs)
  unfolding write_products for_each
  write_products-Has output_prefix fs =
      let image = with_suffix output_prefix "-image.fits" in
      let write : String → Action Files Unit =
        λ suffix. write_file (with_suffix output_prefix suffix) (saved suffix) in
      let kept : (suffix : String) (t : Files)
          → Has image t
          → Ensures (λ _ u. Has image u) (λ _. Unit {0}) (write suffix t) =
        λ suffix t has.
          write_file-Has (with_suffix output_prefix suffix) image (saved suffix) t has in
      rw (← with_suffix-image_of output_prefix) (
        bind_then (Has image) (write "-image.fits")
          (write "-model.fits" >> (write "-residual.fits" >> skip)) fs
          (write_file-makes image (saved "-image.fits") fs)
          λ t made.
            bind_then (Has image) (write "-model.fits") (write "-residual.fits" >> skip) t
              (kept "-model.fits" t made)
              λ u left.
                bind_then (Has image) (write "-residual.fits") skip u (kept "-residual.fits" u left)
                  λ v last. returned last)

  make_products_lem :
      (output_prefix log_path : FilePath) (fs : Files)
      → Ensures
          (λ c t. (c ≡ pos 0) × Has (image_of output_prefix) t)
          (λ _. Unit {0})
          (make_products saved output_prefix log_path fs)
  unfolding make_products
  make_products_lem output_prefix log_path fs =
      bind_then (λ _. Unit {0}) _ _ fs
        (in_any_case (mkdir_parents (parent output_prefix) fs) (λ _ _. tt) (λ _. tt))
        λ t _.
          bind_then (Has (image_of output_prefix)) _ _ t (write_products-Has output_prefix t)
            λ u made.
              finish_lem (image_of output_prefix) log_path "fake processing success\n" 0 u made

  -- The test of FakeRunner.process, on the runner as it was before the call.
  abbrev pub is_to_fail : FakeRunner → ℕ → Bool
  is_to_fail r rid =
      is_member rid r.fail_runs || leb (suc (r.process_calls rid)) (r.fail_run_times rid)

  abbrev pub Processed : FakeRunner → ℕ → FilePath → ℤ → Bench → Type 0
  Processed r rid output_prefix c t =
      (t.runner ≡ count_call rid r)
      × (((is_to_fail r rid ≡ true) × (c ≡ pos 3))
          ⊎ ((is_to_fail r rid ≡ false) × (c ≡ pos 0) × Has (image_of output_prefix) t.files))

  test_counted :
      (r : FakeRunner) (rid : ℕ)
      → is_member rid (count_call rid r).fail_runs
          || leb ((count_call rid r).process_calls rid) ((count_call rid r).fail_run_times rid)
        ≡ is_to_fail r rid
  test_counted r rid = rw (==_refl rid) refl

  -- What follows the counting of the call.
  decided_lem :
      (rid : ℕ) (output_prefix log_path : FilePath) (r : FakeRunner) (fs : Files)
      → Ensures
          (Processed r rid output_prefix)
          (λ t. (t.runner ≡ r) ⊎ (t.runner ≡ count_call rid r))
          ((if is_member rid (count_call rid r).fail_runs
                || leb
                    ((count_call rid r).process_calls rid)
                    ((count_call rid r).fail_run_times rid)
              then on_disk (finish log_path "fake processing failure\n" 3)
              else on_disk (make_products saved output_prefix log_path))
            (record { runner = count_call rid r; files = fs }))
  decided_lem rid output_prefix log_path r fs = elim (Bool-cases (is_to_fail r rid)) [
    | inl fails ↦
        rw (test_counted r rid, fails)
          (weaken_both (λ c t (same, code). (same, inl (fails, code))) (λ t same. inr same)
            (on_disk-Ensures (finish log_path "fake processing failure\n" 3)
              (record { runner = count_call rid r; files = fs })
              (finish_code log_path "fake processing failure\n" 3 fs)))
    | inr works ↦
        rw (test_counted r rid, works)
          (weaken_both (λ c t (same, (code, image)). (same, inr (works, code, image)))
            (λ t same. inr same)
            (on_disk-Ensures (make_products saved output_prefix log_path)
              (record { runner = count_call rid r; files = fs })
              (make_products_lem output_prefix log_path fs)))
  ]

  -- A fake processing that returns has counted its call. It gives 3 for a run that is to fail, or
  -- that has had fewer calls than it is to fail; else it gives 0, and the image is where the
  -- scheduler looks for it. One that raises has counted its call, or not yet.
  pub process_lem :
      (rid : ℕ) (output_prefix log_path : FilePath) (b : Bench)
      → Ensures
          (Processed b.runner rid output_prefix)
          (λ t. (t.runner ≡ b.runner) ⊎ (t.runner ≡ count_call rid b.runner))
          (process saved rid output_prefix log_path b)
  unfolding process
  process_lem rid output_prefix log_path b =
      bind_then (λ t. t.runner ≡ b.runner) (on_disk (mkdir_parents (parent log_path))) _ b
        (weaken_both (λ _ t (same, _). same) (λ t same. inl same)
          (on_disk-Ensures (mkdir_parents (parent log_path)) b
            (in_any_case (mkdir_parents (parent log_path) b.files) (λ _ _. tt) (λ _. tt))))
        λ t same.
          then_ok _ _ t refl
            (bind_ok _ _ _ refl (rw same (decided_lem rid output_prefix log_path b.runner t.files)))
