-- ===== src/Protocol/Observing/Faked.antt =====
-- The worker of an observation with the fake runner.
use Prim.Native.Nat.{max}
use Prim.Native.String.{len}
use ska_sdp_mini_control.Prelude.{
  ℕ, zero, suc, List, ◌≤◌, ◌≡◌, ◌∙◌, refl, ap, false, some, ok, inl, inr, Result, Exc, String, [],
  ◌∷◌, ◌++◌, arith,
}
use ska_sdp_mini_control.Prelude.Int.{ℤ, pos}
use ska_sdp_mini_control.Prelude.Ensures.{Ensures, returned, raised, weaken}
use ska_sdp_mini_control.Models.{FilePath, Observation, planned}
use ska_sdp_mini_control.Files.{Files}
use ska_sdp_mini_control.Files.Removal.{is_under_self}
use ska_sdp_mini_control.Files.Written
use ska_sdp_mini_control.Files.Allowed.{Never}
use ska_sdp_mini_control.Store.Tables.{obs_row, empty_db}
use ska_sdp_mini_control.Storage.{World, apparent_size}
use ska_sdp_mini_control.Scheduler.{Config}
use ska_sdp_mini_control.Scheduler.Observe
use ska_sdp_mini_control.Scheduler.Observe.{Interference, ObserveRun}
use ska_sdp_mini_control.Runners.Fake
use ska_sdp_mini_control.Runners.Fake.{FakeRunner, is_member, marker}
use ska_sdp_mini_control.Runners.Fake.Place.{Free}
use ska_sdp_mini_control.Runners.Fake.Measured.{Observed, observe_lem}
use ska_sdp_mini_control.Protocol.Steps.{Steps}
use ska_sdp_mini_control.Protocol.Observing.Stored.{
  claimed, claimed-Reached, claimed_row, at_rest, Fits, AllWell, DoesWell, observe_stores,
}

-- What the fake runner does after its delay: it makes the files and ends.
abbrev pub fake_work : FakeRunner → ℕ → FilePath → FilePath → Interference
fake_work r oid ms_path log_path v = record v {
  files = (Fake.observe r oid ms_path log_path v.files).1;
}

-- The watchdog's sleeps: `early` ones in which the runner still waits for its delay to pass, and
-- the one in which it works.
abbrev pub fake_sleeps : ℕ → Interference → List Interference
fake_sleeps zero work = work ∷ []
fake_sleeps (suc early) work = (λ v. v) ∷ fake_sleeps early work

-- The run of the fake runner for one observation, while nobody else changes the world: after the
-- last sleep its task is done, and the await of it does not suspend.
abbrev pub fake_run : FakeRunner → ℕ → FilePath → FilePath → ℕ → World → ObserveRun
fake_run r oid ms_path log_path early w = record {
  sleeps = fake_sleeps early (fake_work r oid ms_path log_path);
  ending = λ v. v;
  outcome = (Fake.observe r oid ms_path log_path w.files).0;
  stopping = λ v. v;
}

-- A fake observation that is not to fail.
works :
    (r : FakeRunner) (oid : ℕ) (base : FilePath) (name : String) (log_path : FilePath) (fs : Files)
    → Free base name log_path fs
    → is_member oid r.fail_observations ≡ false
    → ((Fake.observe r oid (base ++ name ∷ []) log_path fs).0 ≡ ok (pos 0))
      × (apparent_size (base ++ name ∷ []) (Fake.observe r oid (base ++ name ∷ []) log_path fs).1
          ≡ max (len marker) r.observation_size)
works r oid base name log_path fs free fine =
    go (Fake.observe r oid (base ++ name ∷ []) log_path fs)
      (observe_lem r oid base name log_path fs free)
  where
    go :
        (x : Result ℤ × Files)
        → Ensures (Observed r oid (base ++ name ∷ [])) Never x
        → (x.0 ≡ ok (pos 0))
          × (apparent_size (base ++ name ∷ []) x.1 ≡ max (len marker) r.observation_size)
    go _ (returned (inl (fails, code, nothing))) = absurd cc
    go _ (returned (inr (_, code, there, size))) = (ap ok code, size)
    go _ (raised never) = absurd never

-- The data has no size while nothing stands at its name.
nothing_there :
    (base : FilePath) (name : String) (log_path : FilePath) (fs : Files)
    → Free base name log_path fs
    → apparent_size (base ++ name ∷ []) fs ≡ 0
unfolding apparent_size
nothing_there base name log_path fs free =
    let ms = base ++ name ∷ [] in
    rw (Written.exists-below ms ms fs free.nothing (is_under_self ms)) refl

module _ (n : ℕ) (room : 1 ≤ n) (oid : ℕ) (cfg : Config) (r : FakeRunner) (base : FilePath)
    (name : String) (log_path : FilePath) (early : ℕ) (w : World) (o : Observation) where
  abbrev ms : FilePath
  ms = base ++ name ∷ []

  abbrev work : Interference
  work = fake_work r oid ms log_path

  -- Before a sleep the world is as the claim has left it, after the last one the work is done.
  abbrev pub Known : List Interference → World → Type 0
  Known [] v = v ≡ work (claimed n room oid cfg w)
  Known (_ ∷ _) v = v ≡ claimed n room oid cfg w

  still_claimed : (k : ℕ) (v : World) → v ≡ claimed n room oid cfg w → Known (fake_sleeps k work) v
  still_claimed zero v same = same
  still_claimed (suc k) v same = same

  sleeps_well :
      (k : ℕ)
      → Fits n room oid cfg o w
      → Fits n room oid cfg o (work w)
      → AllWell n room oid cfg Known o (fake_sleeps k work)
  sleeps_well zero before after = (λ v same. (ap work same, rw same after), tt)
  sleeps_well (suc k) before after =
      (λ v same. (still_claimed k v same, rw same before), sleeps_well k before after)

  pub does_well :
      Steps n empty_db w.db
      → obs_row oid w.db ≡ some o
      → o.state ≡ planned
      → o.ms_path ≡ ms
      → Free base name log_path w.files
      → is_member oid r.fail_observations ≡ false
      → max (len marker) r.observation_size ≤ cfg.observation_reservation
      → DoesWell n room oid cfg Known o (fake_run r oid ms log_path early w) w
  does_well reached found at path free fine enough =
      let did = works r oid base name log_path w.files free fine in
      let fits : Fits n room oid cfg o (work w) = rw (path, did.1) (ground arith) in
      let unwritten = nothing_there base name log_path w.files free in
      record {
        begins = still_claimed early (claimed n room oid cfg w) refl;
        sleeps_well = sleeps_well early (rw (path, unwritten) (ground arith)) fits;
        ends_well = λ v done. rw done (record {
          reached = claimed-Reached n room oid cfg w o reached found at;
          row = claimed_row n room oid cfg w o found at;
          fits = fits;
        });
        exit_code = did.0;
      }

  -- The worker of a PLANNED observation of a reachable store, with the fake runner, which ends in
  -- any sleep of the watchdog, returns and leaves the row STORED, without a reservation, with the
  -- size of the fake data or that of its marker if this is more, where the operating system refuses
  -- no path, the directories above the data and the log exist, nothing stands at the data's name or
  -- below it, the log's path is no directory and does not lie below the data, the observation is
  -- not to fail, that size fits the reservation, and nobody else changes the world meanwhile.
  pub fake_observation_lem :
      (repr : Exc → String)
      → Steps n empty_db w.db
      → obs_row oid w.db ≡ some o
      → o.state ≡ planned
      → o.ms_path ≡ ms
      → Free base name log_path w.files
      → is_member oid r.fail_observations ≡ false
      → max (len marker) r.observation_size ≤ cfg.observation_reservation
      → Ensures
          (λ _ t.
            obs_row oid t.db
            ≡ some (at_rest n room oid cfg (max (len marker) r.observation_size) o))
          (λ _. ⊥)
          (Observe.observe repr cfg (fake_run r oid ms log_path early w) oid w)
  fake_observation_lem repr reached found at path free fine enough =
      let did = works r oid base name log_path w.files free fine in
      weaken
        (λ _ t (v, same, files, row).
          row
          ∙ ap (λ size. some (at_rest n room oid cfg size o))
              (ap (λ fs. apparent_size o.ms_path fs) files ∙ rw (same, path) did.1))
        (observe_stores n room oid cfg Known o (fake_run r oid ms log_path early w) repr w reached
          found at (does_well reached found at path free fine enough))
