-- ===== src/Protocol/Ticking/Initial.antt =====
-- The first runs of the observations that are STORED.
use ska_sdp_mini_control.Prelude.{
  ℕ, suc, ◌≤◌, ◌≡◌, ◌∙◌, ◌⊎◌, inl, inr, refl, ap, subst, arith, true, false, not, Bool, Bool-cases,
  ok, List, [], ◌∷◌, ◌++◌, Memᴰ, select, mem-select, select-mem, any, any_of_mem, ◌>>=◌, ◌>>◌, tx,
  for_each, ◌&&◌, ◌||◌,
}
use ska_sdp_mini_control.Prelude.Ensures.{Ensures, returned, bind_then, weaken, for_each_rule}
use ska_sdp_mini_control.Prelude.Keyed.{IsAscending, IsAscending-mem}
use ska_sdp_mini_control.Models.{FilePath, Observation, ProcessingRun, stored, obs_state_eq}
use ska_sdp_mini_control.Models.Graph.{obs_state_eq_iff}
use ska_sdp_mini_control.Store.Tables.{
  Db, empty_db, obs_has_id, of_observation, add_event, insert_event,
}
use ska_sdp_mini_control.Store.Runs.{create_run, insert_run, is_attempt, next_attempt, new_run}
use ska_sdp_mini_control.Store.Retries.{list_stored_observations_without_runs}
use ska_sdp_mini_control.Storage.{World}
use ska_sdp_mini_control.Storage.Rules.{on_db_returns}
use ska_sdp_mini_control.Scheduler.Tick.{create_initial_run, initial_prefix, initial_log}
use ska_sdp_mini_control.Protocol.Steps.{Steps, Steps-Inv, next, start_initial_run}
use ska_sdp_mini_control.Protocol.Guarantees.{empty_db-Inv}
use ska_sdp_mini_control.Protocol.Kept.{InReach}

no_attempt :
    (oid attempt : ℕ) (rs : List ProcessingRun)
    → any (of_observation oid) rs ≡ false
    → any (is_attempt oid attempt) rs ≡ false
unfolding any
no_attempt oid attempt [] h = refl
no_attempt oid attempt (r ∷ rs) h = ground (arith, no_attempt oid attempt rs)

any-append_one :
    {A : Type 0} (p : A → Bool) (xs : List A) (x : A) → any p (xs ++ x ∷ []) ≡ (any p xs || p x)
unfolding any
any-append_one p [] x = ground arith
any-append_one p (y ∷ ys) x = ground (arith, any-append_one p ys x)

-- The first run of an observation that is there goes in.
create_run-first :
    (oid : ℕ) (output_prefix log_path : FilePath) (db : Db)
    → any (of_observation oid) db.runs ≡ false
    → any (obs_has_id oid) db.observations ≡ true
    → ((create_run oid output_prefix log_path db).0 ≡ ok (suc db.run_seq))
      × ((create_run oid output_prefix log_path db).1.observations ≡ db.observations)
      × ((create_run oid output_prefix log_path db).1.runs
          ≡ db.runs
            ++ new_run (suc db.run_seq) oid (next_attempt oid db) output_prefix log_path ∷ [])
unfolding create_run insert_run insert_event add_event tx ◌>>=◌ ◌>>◌
create_run-first oid output_prefix log_path db none_yet known =
    rw (no_attempt oid (next_attempt oid db) db.runs none_yet, known) (refl, refl, refl)

IsAscending-weaken :
    (k lo : ℕ) (xs : List Observation) (hi : ℕ)
    → k ≤ lo
    → IsAscending (λ (o : Observation). o.id) lo xs hi
    → IsAscending (λ (o : Observation). o.id) k xs hi
IsAscending-weaken k lo [] hi le h = omega arith
IsAscending-weaken k lo (x ∷ xs) hi le h = (omega (arith, h.0), h.1)

IsAscending-select :
    (p : Observation → Bool) (lo : ℕ) (xs : List Observation) (hi : ℕ)
    → IsAscending (λ (o : Observation). o.id) lo xs hi
    → IsAscending (λ (o : Observation). o.id) lo (select p xs) hi
unfolding select
IsAscending-select p lo [] hi h = h
IsAscending-select p lo (x ∷ xs) hi h =
    let rest = IsAscending-select p x.id xs hi h.1 in
    elim (Bool-cases (p x)) [
      | inl kept ↦ rw kept (h.0, rest)
      | inr dropped ↦
          rw dropped (IsAscending-weaken lo x.id (select p xs) hi (omega (arith, h.0)) rest)
    ]

-- The observation has a run.
abbrev pub HasRun : Db → Observation → Type 0
HasRun db o = any (of_observation o.id) db.runs ≡ true

module _ (n : ℕ) (room : 1 ≤ n) (db : Db) where
  -- What holds while the rows `os` are still to come.
  record Serving (os : List Observation) (t : World) : Type 0 where
    reached : InReach n t
    same : t.db.observations ≡ db.observations
    distinct : IsAscending (λ (o : Observation). o.id) 0 os db.obs_seq
    waiting :
        (o : Observation)
        → Memᴰ o os
        → Memᴰ o db.observations
          × (o.state ≡ stored)
          × (any (of_observation o.id) t.db.runs ≡ false)
    served :
        (o : Observation) → Memᴰ o db.observations → o.state ≡ stored → HasRun t.db o ⊎ Memᴰ o os

  serve :
      {E : World → Type 0} (root : FilePath) (o : Observation) (os : List Observation) (w : World)
      → Serving (o ∷ os) w
      → Ensures (λ _ t. Serving os t) E (create_initial_run root o.id w)
  unfolding create_initial_run
  serve {E} root o os w h =
      let (mo, at, none_yet) = h.waiting o (Memᴰ.head refl) in
      let known : any (obs_has_id o.id) w.db.observations ≡ true =
        any_of_mem (obs_has_id o.id) w.db.observations {x = o} (rw h.same mo) (ground arith) in
      let (fine, kept, one_more) =
        create_run-first o.id (initial_prefix root o.id) (initial_log root o.id) w.db none_yet
          known in
      bind_then (Serving os) _ _ w
        (on_db_returns (λ _ t. Serving os t) E
          (create_run o.id (initial_prefix root o.id) (initial_log root o.id)) w _ fine
          (record {
            reached = next h.reached (
                start_initial_run w.db o (initial_prefix root o.id) (initial_log root o.id)
                  (rw h.same mo) at none_yet);
            same = kept ∙ h.same;
            distinct = IsAscending-weaken 0 o.id os db.obs_seq (omega arith) h.distinct.1;
            waiting = λ p mp.
                let (mq, stored_p, none_p) = h.waiting p (Memᴰ.tail mp) in
                (
                  mq,
                  stored_p,
                  rw (one_more, any-append_one (of_observation p.id))
                      (ground (
                        arith,
                        none_p,
                        IsAscending-mem (λ (o : Observation). o.id) o.id os db.obs_seq {x = p}
                            h.distinct.1 mp,
                      )),
                );
            served = λ p mp stored_p. go _ p refl (h.served p mp stored_p) one_more;
          }))
        λ t done. returned done
    where
      go :
          {rs : List ProcessingRun} (r : ProcessingRun) (p : Observation)
          → r.observation_id ≡ o.id
          → HasRun w.db p ⊎ Memᴰ p (o ∷ os)
          → rs ≡ w.db.runs ++ r ∷ []
          → (any (of_observation p.id) rs ≡ true) ⊎ Memᴰ p os
      go r p owner (inl has) e =
          inl (rw (e, any-append_one (of_observation p.id)) (ground (arith, has)))
      go r p owner (inr (Memᴰ.head same_row)) e = inl (
          rw (e, any-append_one (of_observation p.id))
            (ground (arith, ap (λ (o : Observation). o.id) same_row)))
      go r p owner (inr (Memᴰ.tail m)) e = inr m

  -- The loop over the STORED observations without runs never raises, and leaves no such row.
  pub serve_all :
      {E : World → Type 0} (root : FilePath) (w : World)
      → w.db ≡ db
      → InReach n w
      → Ensures
          (λ _ t.
            InReach n t
            × (t.db.observations ≡ db.observations)
            × ((o : Observation) → Memᴰ o db.observations → o.state ≡ stored → HasRun t.db o))
          E
          (for_each
            (list_stored_observations_without_runs db)
            (λ obs. create_initial_run root obs.id)
            w)
  unfolding list_stored_observations_without_runs
  serve_all root w same reached =
      weaken
        (λ _ t (h : Serving [] t). (
          h.reached,
          h.same,
          λ o m at. elim (h.served o m at) [ inl has ↦ has | inr left ↦ elim left [ ] ],
        ))
        (for_each_rule Serving _ (λ o os s h. serve root o os s h) _ w
          (record {
            reached = reached;
            same = ap (λ (d : Db). d.observations) same;
            distinct =
                IsAscending-select due 0 db.observations db.obs_seq
                  (Steps-Inv room there (empty_db-Inv n)).obs_ids;
            waiting = λ o m.
                let (mo, t) = mem-select due db.observations m in
                (
                  mo,
                  ground (arith, t, obs_state_eq_iff o.state stored),
                  rw same (ground (arith, t)),
                );
            served = λ o m at. elim (Bool-cases (any (of_observation o.id) db.runs)) [
              | inl has ↦ inl (rw same has)
              | inr none_yet ↦ inr (
                  select-mem due db.observations m
                    (ground (arith, obs_state_eq_iff o.state stored)))
            ];
          }))
    where
      due : Observation → Bool
      due o = obs_state_eq o.state stored && not (any (of_observation o.id) db.runs)

      there : Steps n empty_db db
      there = subst (λ (d : Db). Steps n empty_db d) same reached
