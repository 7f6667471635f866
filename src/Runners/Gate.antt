-- ===== src/Runners/Gate.antt =====
-- The gate: which containers are left when kill_managed ends.
use ska_sdp_mini_control.Prelude.{
  ℕ, zero, suc, ◌≡◌, ◌≢◌, ◌⊎◌, refl, subst, true, false, Bool, Bool-cases, inl, inr, String,
  for_each, List, [], ◌∷◌, Memᴰ, arith,
}
use ska_sdp_mini_control.Prelude.Int.{pos}
use ska_sdp_mini_control.Prelude.Format.{concat}
use ska_sdp_mini_control.Prelude.Ensures.{
  Ensures, returned, raised, bind_ok, then_ok, for_each_rule, weaken,
}
use ska_sdp_mini_control.Runners.{
  Answer, Engine, ContainerRunner, container_ids, none_left, wait_gone, remove_and_wait_gone,
  remove_all, kill_managed,
}

-- The documented command that prints the ids of the containers in any state which match a filter;
-- without `-a` it prints those that run.
abbrev ps : {C : Type 0} → Engine C → ContainerRunner → String → C → Answer × C
ps engine runner f = engine.exec (runner.executable ∷ "ps" ∷ "-aq" ∷ "--filter" ∷ f ∷ [])

abbrev rm : {C : Type 0} → Engine C → ContainerRunner → String → C → Answer × C
rm engine runner cid = engine.exec (runner.executable ∷ "rm" ∷ "-f" ∷ cid ∷ [])

-- What the engine is documented to do, where `matching` are the containers that match a filter, in
-- any state, and `has_failed` says that a `ps` of the engine's history has exited non-zero. A `ps`
-- may fail; where it exits with 0 it prints what matches. An id finds its container, and nothing
-- starts a container that matches while the gate works.
pub record KeepsPromises {C : Type 0} (engine : Engine C) (runner : ContainerRunner)
    (matching : String → C → List String) (has_failed : C → Bool) (filter : String) : Type 0 where
  pub prints :
      (f : String) (c : C)
      → (ps engine runner f c).0.exit_code ≡ pos 0
      → (ps engine runner f c).0.ids ≡ matching f c
  pub notes :
      (f : String) (c : C)
      → ((ps engine runner f c).0.exit_code ≡ pos 0) ⊎ (has_failed (ps engine runner f c).1 ≡ true)
  pub remembers :
      (args : List String) (c : C) → has_failed c ≡ true → has_failed (engine.exec args c).1 ≡ true
  pub remembers_asleep : (c : C) → has_failed c ≡ true → has_failed (engine.sleep c) ≡ true
  pub finds :
      (cid : String) (c : C)
      → Memᴰ cid (matching filter c)
      → Memᴰ cid (matching (concat ("id=" ∷ cid ∷ [])) c)
  pub ps_starts_none :
      (f : String) (c : C) (x : String)
      → Memᴰ x (matching filter (ps engine runner f c).1)
      → Memᴰ x (matching filter c)
  pub rm_starts_none :
      (cid : String) (c : C) (x : String)
      → Memᴰ x (matching filter (rm engine runner cid c).1)
      → Memᴰ x (matching filter c)
  pub sleep_starts_none :
      (c : C) (x : String) → Memᴰ x (matching filter (engine.sleep c)) → Memᴰ x (matching filter c)

module _ {C : Type 0} (engine : Engine C) (runner : ContainerRunner)
    (matching : String → C → List String) (has_failed : C → Bool) (filter : String)
    (promises : KeepsPromises engine runner matching has_failed filter) where
  -- Where no `ps` has failed up to `t`, none had up to `c`, and no new container matches.
  abbrev NoMore : C → C → Type 0
  NoMore c t =
      has_failed t ≡ false
      → (has_failed c ≡ false)
        × ((x : String) → Memᴰ x (matching filter t) → Memᴰ x (matching filter c))

  abbrev Gone : String → C → C → Type 0
  Gone cid c t = (has_failed t ≡ false → Memᴰ cid (matching filter t) → ⊥) × NoMore c t

  empty_answer : (xs : List String) → none_left xs ≡ true → (x : String) → Memᴰ x xs → ⊥
  empty_answer [] e x m = elim m [ ]
  empty_answer (y ∷ ys) e x m = cc

  not_before :
      (c t : C)
      → (has_failed c ≡ true → has_failed t ≡ true)
      → has_failed t ≡ false
      → has_failed c ≡ false
  not_before c t keeps fine = elim (Bool-cases (has_failed c)) [
    | inl failed ↦ absurd (ground (arith, keeps failed))
    | inr none ↦ none
  ]

  ps-NoMore : (c : C) (f : String) → NoMore c (ps engine runner f c).1
  ps-NoMore c f fine = (not_before c _ (promises.remembers _ c) fine, promises.ps_starts_none f c)

  rm-NoMore : (c : C) (cid : String) → NoMore c (rm engine runner cid c).1
  rm-NoMore c cid fine =
      (not_before c _ (promises.remembers _ c) fine, promises.rm_starts_none cid c)

  sleep-NoMore : (c : C) → NoMore c (engine.sleep c)
  sleep-NoMore c fine =
      (not_before c _ (promises.remembers_asleep c) fine, promises.sleep_starts_none c)

  NoMore-trans : (c d t : C) → NoMore c d → NoMore d t → NoMore c t
  NoMore-trans c d t less less' fine =
      let (fine', kept) = less' fine in
      let (fine'', kept') = less fine' in (fine'', λ x m. kept' x (kept x m))

  -- A `ps` that has not failed prints what matches.
  printed :
      (f : String) (c : C)
      → has_failed (ps engine runner f c).1 ≡ false
      → (ps engine runner f c).0.ids ≡ matching f c
  printed f c fine = elim (promises.notes f c) [
    | inl done ↦ promises.prints f c done
    | inr failed ↦ absurd (ground (arith, failed))
  ]

  wait_gone-Gone :
      (rounds : ℕ) (cid : String) (c d : C)
      → NoMore c d
      → Ensures (λ _ t. Gone cid c t) (λ _. Unit) (wait_gone engine runner rounds cid d)
  unfolding wait_gone container_ids
  wait_gone-Gone zero cid c d less = raised tt
  wait_gone-Gone (suc rounds) cid c d less =
      let f = concat ("id=" ∷ cid ∷ []) in
      let asked = NoMore-trans c d _ less (ps-NoMore d f) in
      bind_ok _ _ d refl (elim (Bool-cases (none_left (ps engine runner f d).0.ids)) [
        | inl gone ↦ rw gone (
            returned (
              λ fine m.
                  empty_answer (matching f d) (rw (← printed f d fine) gone) cid
                    (promises.finds cid d (promises.ps_starts_none f d cid m)),
              asked,
            ))
        | inr there ↦ rw there (
            then_ok _ _ _ refl
              (wait_gone-Gone rounds cid c _ (NoMore-trans c _ _ asked (sleep-NoMore _))))
      ])

  remove_and_wait_gone-Gone :
      (cid : String) (c : C)
      → Ensures (λ _ t. Gone cid c t) (λ _. Unit) (remove_and_wait_gone engine runner cid c)
  unfolding remove_and_wait_gone
  remove_and_wait_gone-Gone cid c =
      then_ok _ _ c refl (wait_gone-Gone 100 cid c (rm engine runner cid c).1 (rm-NoMore c cid))

  -- Of the containers that match, only those in a list are left.
  abbrev Among : List String → C → Type 0
  Among xs t = has_failed t ≡ false → (x : String) → Memᴰ x (matching filter t) → Memᴰ x xs

  remove_each :
      (ids : List String) (c : C)
      → Among ids c
      → Ensures
          (λ _ t. Among [] t)
          (λ _. Unit)
          (for_each ids (remove_and_wait_gone engine runner) c)
  remove_each ids c among =
      for_each_rule Among _
        (λ cid rest t h.
          weaken
            (λ _ u (gone, less) fine x m.
              let (fine', kept) = less fine in
              left cid rest x (gone_is cid x u (gone fine) m) (h fine' x (kept x m)))
            (remove_and_wait_gone-Gone cid t))
        ids c among
    where
      gone_is :
          (cid x : String) (u : C)
          → (Memᴰ cid (matching filter u) → ⊥)
          → Memᴰ x (matching filter u)
          → x ≢ cid
      gone_is cid x u gone m e = gone (subst (λ y. Memᴰ y (matching filter u)) e m)

      left :
          (cid : String) (rest : List String) (x : String)
          → x ≢ cid
          → Memᴰ x (cid ∷ rest)
          → Memᴰ x rest
      left cid rest x other (Memᴰ.head e) = absurd (other e)
      left cid rest x other (Memᴰ.tail m) = m

  -- Where the engine keeps its promises, the removal either raises, or returns with no container
  -- left that matches, or with a `ps` that has failed.
  remove_all_lem :
      (c : C)
      → Ensures
          (λ _ t. (has_failed t ≡ true) ⊎ ((x : String) → Memᴰ x (matching filter t) → ⊥))
          (λ _. Unit)
          (remove_all engine runner (filter ∷ []) c)
  unfolding remove_all container_ids
  remove_all_lem c = bind_ok _ _ c refl (
      weaken (λ _ t among. none_or_failed t among)
        (remove_each (ps engine runner filter c).0.ids (ps engine runner filter c).1
          λ fine x m. rw (printed filter c fine) (promises.ps_starts_none filter c x m)))
    where
      none_or_failed :
          (t : C)
          → Among [] t
          → (has_failed t ≡ true) ⊎ ((x : String) → Memᴰ x (matching filter t) → ⊥)
      none_or_failed t among = elim (Bool-cases (has_failed t)) [
        | inl failed ↦ inl failed
        | inr fine ↦ inr (λ x m. elim (among fine x m) [ ])
      ]

-- Where the engine keeps its promises, kill_managed either raises, or returns with no managed
-- container left, in any state, or returns after a `ps` that has exited non-zero.
pub kill_managed_lem :
    {C : Type 0} (engine : Engine C) (runner : ContainerRunner)
    (matching : String → C → List String) (has_failed : C → Bool)
    → KeepsPromises engine runner matching has_failed "label=sdpctl.managed=true"
    → (c : C)
    → Ensures
        (λ _ t.
          (has_failed t ≡ true)
          ⊎ ((x : String) → Memᴰ x (matching "label=sdpctl.managed=true" t) → ⊥))
        (λ _. Unit)
        (kill_managed engine runner c)
unfolding kill_managed
kill_managed_lem engine runner matching has_failed promises c =
    remove_all_lem engine runner matching has_failed "label=sdpctl.managed=true" promises c
