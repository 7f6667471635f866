-- ===== src/Tests/Runners.antt =====
-- The gate with two engines: one that works, and one whose `ps` fails.
use text.Mathlib.Text.{◌==◌ as str_eq}
use text.Mathlib.TextEquality.{eq_iff}
use ska_sdp_mini_control.Prelude.{
  ◌≡◌, ◌==◌, true, false, refl, ok, some, not, String, List, [], ◌∷◌, Memᴰ, select, mem-select,
  select-mem, for_each, ◌>>=◌, ◌>>◌, Bool, any, ◌||◌, ◌&&◌, ◌⊎◌, inl, inr, if◌then◌else◌, arith,
}
use ska_sdp_mini_control.Prelude.Int.{pos}
use ska_sdp_mini_control.Prelude.Format.{concat, decimal, zero_pad}
use ska_sdp_mini_control.Prelude.Ensures.{Ensures}
use ska_sdp_mini_control.Files.{path_text, strip}
use ska_sdp_mini_control.Runners.{
  Answer, Engine, ContainerRunner, container_ids, wait_gone, remove_and_wait_gone, remove_all,
  kill_managed, container_path, as_posix, observe_command, process_command, abort_filters,
  kill_filters,
}
use ska_sdp_mini_control.Runners.Labels.{container_labels, selects, abort_filters-select}
use ska_sdp_mini_control.Runners.Gate.{KeepsPromises, kill_managed_lem}

abbrev docker : ContainerRunner
docker = record {
  executable = "docker";
  image = "mock";
  observe_script = "/observe.sh";
  process_script = "/process.sh";
  data_root = "srv" ∷ "data" ∷ [];
}

abbrev matches : String → String → Bool
matches f cid = str_eq f "label=sdpctl.managed=true" || str_eq f (concat ("id=" ∷ cid ∷ []))

-- The managed containers of an engine, by their ids; those with another id than c1 are stopped.
abbrev matching : String → List String → List String
matching f c = select (matches f) c

abbrev answer : List String → List String → Answer × List String
answer (program ∷ verb ∷ option ∷ rest) c =
    if str_eq verb "ps" then (record { exit_code = pos 0; ids = shown option rest c }, c) else (
      record { exit_code = pos 0; ids = [] },
      select (λ x. not (str_eq option "-f" && any (str_eq x) rest)) c,
    )
  where
    shown : String → List String → List String → List String
    shown option (word ∷ f ∷ []) c =
        if str_eq option "-aq" then matching f c else select (λ x. str_eq x "c1") (matching f c)
    shown option _ c = []
answer _ c = (record { exit_code = pos 0; ids = [] }, c)

-- An engine that works.
abbrev good_engine : Engine (List String)
good_engine = record { exec = answer; sleep = λ c. c }

-- A container that matches by its id, as one that is managed.
finds_by_id :
    (cid : String) (c : List String)
    → Memᴰ cid (matching "label=sdpctl.managed=true" c)
    → Memᴰ cid (matching (concat ("id=" ∷ cid ∷ [])) c)
finds_by_id cid c m =
    let f = concat ("id=" ∷ cid ∷ []) in
    select-mem (matches f) c (mem-select (matches "label=sdpctl.managed=true") c m).0
      (ground (arith, eq_iff f f))

good_engine-KeepsPromises :
    KeepsPromises good_engine docker matching (λ c. false) "label=sdpctl.managed=true"
good_engine-KeepsPromises = record {
  prints = λ f c e. refl;
  notes = λ f c. inl refl;
  remembers = λ args c e. e;
  remembers_asleep = λ c e. e;
  finds = finds_by_id;
  ps_starts_none = λ f c x m. m;
  rm_starts_none = λ cid c x m.
      select-mem (matches "label=sdpctl.managed=true") c
        (mem-select (λ y. not (any (str_eq y) (cid ∷ []))) c
          (mem-select (matches "label=sdpctl.managed=true") _ m).0).0
        refl;
  sleep_starts_none = λ c x m. m;
}

kill_managed_lem_example :
    Ensures
      (λ _ t. (false ≡ true) ⊎ ((x : String) → Memᴰ x (matching "label=sdpctl.managed=true" t) → ⊥))
      (λ _. Unit)
      (kill_managed good_engine docker ("c1" ∷ "c2" ∷ []))
kill_managed_lem_example =
    kill_managed_lem good_engine docker matching (λ c. false) good_engine-KeepsPromises
      ("c1" ∷ "c2" ∷ [])

-- Both containers are removed, the one that is stopped too.
kills_both : kill_managed good_engine docker ("c1" ∷ "c2" ∷ []) ≡ (ok tt, [])
unfolding kill_managed remove_all container_ids remove_and_wait_gone wait_gone for_each select any
    concat ◌>>=◌ ◌>>◌
kills_both = refl

-- An engine that fails: it prints nothing, and nothing is removed. Its state says whether a command
-- has failed.
abbrev failing_engine : Engine (Bool × List String)
failing_engine = record {
  exec = λ args (_, c). (record { exit_code = pos 1; ids = [] }, (true, c));
  sleep = λ c. c;
}

failing_engine-KeepsPromises :
    KeepsPromises failing_engine docker
      (λ f c. matching f c.1)
      (λ c. c.0)
      "label=sdpctl.managed=true"
failing_engine-KeepsPromises = record {
  prints = λ f c e. absurd (ground arith);
  notes = λ f c. inr refl;
  remembers = λ args c e. refl;
  remembers_asleep = λ c e. e;
  finds = λ cid c m. finds_by_id cid c.1 m;
  ps_starts_none = λ f c x m. m;
  rm_starts_none = λ cid c x m. m;
  sleep_starts_none = λ c x m. m;
}

-- The gate returns, and the container is still there.
failing_ps_passes_the_gate :
    kill_managed failing_engine docker (false, "c1" ∷ []) ≡ (ok tt, (true, "c1" ∷ []))
unfolding kill_managed remove_all container_ids for_each ◌>>=◌
failing_ps_passes_the_gate = refl

maps_the_root :
    container_path docker.data_root ("srv" ∷ "data" ∷ "observations" ∷ "obs-000001.ms" ∷ [])
    ≡ some "/data/observations/obs-000001.ms"
unfolding container_path as_posix strip concat
maps_the_root = refl

observes :
    observe_command docker 1 ("srv" ∷ "data" ∷ "observations" ∷ "obs-000001.ms" ∷ [])
    ≡ some (
        "docker" ∷ "run" ∷ "--rm" ∷ "--name" ∷ "sdpctl-observe-000001" ∷ "--label"
        ∷ "sdpctl.managed=true" ∷ "--label" ∷ "sdpctl.kind=observation" ∷ "--label"
        ∷ "sdpctl.observation_id=1" ∷ "-v" ∷ "/srv/data:/data" ∷ "mock" ∷ "/observe.sh"
        ∷ "/data/observations/obs-000001.ms" ∷ [])
unfolding observe_command container_path as_posix strip concat decimal zero_pad path_text
observes = refl

abbrev observing_words : List String
observing_words =
    "docker" ∷ "run" ∷ "--rm" ∷ "--name" ∷ "sdpctl-observe-000001" ∷ "--label"
    ∷ "sdpctl.managed=true" ∷ "--label" ∷ "sdpctl.kind=observation" ∷ "--label"
    ∷ "sdpctl.observation_id=1" ∷ "-v" ∷ "/srv/data:/data" ∷ "mock" ∷ "/observe.sh" ∷ "/data/o.ms"
    ∷ []

abbrev processing_words : List String
processing_words =
    "docker" ∷ "run" ∷ "--rm" ∷ "--name" ∷ "sdpctl-process-000001-000007" ∷ "--label"
    ∷ "sdpctl.managed=true" ∷ "--label" ∷ "sdpctl.kind=processing" ∷ "--label"
    ∷ "sdpctl.observation_id=1" ∷ "--label" ∷ "sdpctl.run_id=7" ∷ "-v" ∷ "/srv/data:/data" ∷ "mock"
    ∷ "/process.sh" ∷ "/data/o.ms" ∷ "/data/product" ∷ []

abort_filters-select_example :
    (selects kill_filters (container_labels observing_words) ≡ true)
    × (selects kill_filters (container_labels processing_words) ≡ true)
    × (selects (abort_filters 12) (container_labels observing_words) ≡ (1 == 12))
    × (selects (abort_filters 12) (container_labels processing_words) ≡ false)
unfolding observe_command process_command container_path as_posix strip concat decimal zero_pad
    path_text
abort_filters-select_example =
    abort_filters-select docker 1 7 12 ("srv" ∷ "data" ∷ "o.ms" ∷ [])
      ("srv" ∷ "data" ∷ "product" ∷ []) observing_words processing_words (refl, refl, refl, refl)
      refl refl
