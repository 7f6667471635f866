-- ===== src/Protocol/Timeline/Told.antt =====
-- Tables whose log tells the state of every row, and the writes that keep them so.
use ska_sdp_mini_control.Prelude.{
  ℕ, ◌<◌, ◌≡◌, ◌≢◌, refl, ◌∙◌, true, false, Bool, Bool-cases, inl, inr, none, some, Option, arith,
  List, [], ◌∷◌, ◌++◌, Memᴰ, update, update_all, append_all,
}
use ska_sdp_mini_control.Models.Graph.{obs_state_eq_iff, run_state_eq_iff}
use ska_sdp_mini_control.Store.Tables.{Event, EntityType, EntityState, obs_state, run_state}
use ska_sdp_mini_control.Protocol.Timeline.{
  is_legal, same_state, follow, follow_on, is_about, told, told-append_one,
}

same_state_refl : (s : Option EntityState) → same_state s s ≡ true
same_state_refl none = refl
same_state_refl (some (obs_state s)) = ground (arith, obs_state_eq_iff s s)
same_state_refl (some (run_state s)) = ground (arith, run_state_eq_iff s s)

module _ (es : List Event) (e : Event) where
  follow-note : (t : Option (Option EntityState)) → e.to_state ≡ none → follow_on t e ≡ t
  unfolding follow
  follow-note none note = refl
  follow-note (some at) note = rw note refl

  -- A note moves no reader.
  pub told-note :
      (kind : EntityType) (k : ℕ) → e.to_state ≡ none → told kind k (es ++ e ∷ []) ≡ told kind k es
  told-note kind k note = rw told-append_one (elim (Bool-cases (is_about kind k e)) [
    | inl about ↦ rw about (follow-note (told kind k es) note)
    | inr other ↦ rw other refl
  ])

  -- Nor does an event that is about another row.
  pub told-other :
      (kind : EntityType) (k : ℕ)
      → is_about kind k e ≡ false
      → told kind k (es ++ e ∷ []) ≡ told kind k es
  told-other kind k other = rw (told-append_one, other) refl

  -- A move takes the readers that it finds at its start to its end.
  pub told-move :
      (kind : EntityType) (k : ℕ) (at : Option EntityState) (to : EntityState)
      → is_about kind k e ≡ true
      → e.from_state ≡ at
      → e.to_state ≡ some to
      → is_legal at to ≡ true
      → told kind k es ≡ some at
      → told kind k (es ++ e ∷ []) ≡ some (some to)
  unfolding follow
  told-move kind k at to about starts ends legal here =
      rw (told-append_one, about, here, starts, ends, same_state_refl, legal) refl

-- The log tells the state of every row of a table, and nothing of the rows that are to come.
pub record Tells {A : Type 0} (kind : EntityType) (key : A → ℕ) (state : A → EntityState)
    (xs : List A) (seq : ℕ) (es : List Event) : Type 0 where
  pub tells : (x : A) → Memᴰ x xs → told kind (key x) es ≡ some (some (state x))
  pub silent : (k : ℕ) → seq < k → told kind k es ≡ some none

-- What an event says of a row.
pub record Says (e : Event) (kind : EntityType) (k : ℕ) (from : Option EntityState)
    (to : EntityState) : Type 0 where
  pub about : is_about kind k e ≡ true
  pub only : (j : ℕ) → j ≢ k → is_about kind j e ≡ false
  pub starts : e.from_state ≡ from
  pub ends : e.to_state ≡ some to
  pub legal : is_legal from to ≡ true

module _ {A : Type 0} {kind : EntityType} {key : A → ℕ} {state : A → EntityState} {xs : List A}
    {seq : ℕ} {es : List Event} (h : Tells kind key state xs seq es) where
  pub Tells-note : (e : Event) → e.to_state ≡ none → Tells kind key state xs seq (es ++ e ∷ [])
  Tells-note e note = record {
    tells = λ x m. told-note es e kind (key x) note ∙ h.tells x m;
    silent = λ k lt. told-note es e kind k note ∙ h.silent k lt;
  }

  -- An event about the other table.
  pub Tells-apart :
      (e : Event)
      → ((k : ℕ) → is_about kind k e ≡ false)
      → Tells kind key state xs seq (es ++ e ∷ [])
  Tells-apart e apart = record {
    tells = λ x m. told-other es e kind (key x) (apart (key x)) ∙ h.tells x m;
    silent = λ k lt. told-other es e kind k (apart k) ∙ h.silent k lt;
  }

  -- An UPDATE that touches neither the keys nor the states.
  pub Tells-rewritten :
      (p : A → Bool) (f : A → A)
      → ((x : A) → key (f x) ≡ key x)
      → ((x : A) → state (f x) ≡ state x)
      → Tells kind key state (update p f xs) seq es
  Tells-rewritten p f keeps stays = record {
    tells =
        update_all p f (λ x. told kind (key x) es ≡ some (some (state x))) xs
          (λ x m t. rw (keeps, stays) (h.tells x m)) (λ x m t. h.tells x m);
    silent = h.silent;
  }

  -- A new row, with the event of its creation.
  pub Tells-inserted :
      (a : A) (e : Event)
      → seq < key a
      → Says e kind (key a) none (state a)
      → Tells kind key state (xs ++ a ∷ []) (key a) (es ++ e ∷ [])
  Tells-inserted a e new says = record {
    tells =
        append_all (λ x. told kind (key x) (es ++ e ∷ []) ≡ some (some (state x))) xs a
          (λ x m.
            told-other es e kind (key x) (
              says.only (key x)
                (λ same. absurd (let quiet = h.silent (key a) new in let loud = h.tells x m in cc)))
            ∙ h.tells x m)
          (told-move es e kind (key a) none (state a) says.about says.starts says.ends says.legal
            (h.silent (key a) new));
    silent = λ k lt.
        told-other es e kind k (says.only k (λ same. absurd (omega (arith, same))))
        ∙ h.silent k (omega arith);
  }

  -- A guarded UPDATE that moves one row, with its event.
  pub Tells-moved :
      (p : A → Bool) (f : A → A) (e : Event) (k : ℕ) (from to : EntityState) (y : A)
      → ((x : A) → key (f x) ≡ key x)
      → ((x : A) → state (f x) ≡ to)
      → ((x : A) → p x ≡ true → key x ≡ k)
      → ((x : A) → key x ≡ k → state x ≡ from → p x ≡ true)
      → Says e kind k (some from) to
      → Memᴰ y xs
      → key y ≡ k
      → state y ≡ from
      → Tells kind key state (update p f xs) seq (es ++ e ∷ [])
  Tells-moved p f e k from to y keeps sets aims finds says my is_y at = record {
    tells =
        update_all p f (λ x. told kind (key x) (es ++ e ∷ []) ≡ some (some (state x))) xs hit miss;
    silent =
        λ j lt. told-other es e kind j (says.only j (λ same. not_silent j lt same)) ∙ h.silent j lt;
  }
    where
      here : told kind k es ≡ some (some from)
      here = rw (← is_y, ← at) (h.tells y my)

      not_silent : (j : ℕ) → seq < j → j ≡ k → ⊥
      not_silent j lt same = let quiet = h.silent j lt in let loud = here in cc

      hit :
          (x : A)
          → Memᴰ x xs
          → p x ≡ true
          → told kind (key (f x)) (es ++ e ∷ []) ≡ some (some (state (f x)))
      hit x mx t =
          rw (keeps, sets, aims x t)
            (told-move es e kind k (some from) to says.about says.starts says.ends says.legal here)

      miss :
          (x : A)
          → Memᴰ x xs
          → p x ≡ false
          → told kind (key x) (es ++ e ∷ []) ≡ some (some (state x))
      miss x mx t =
          told-other es e kind (key x) (says.only (key x) (λ same. other x mx t same))
          ∙ h.tells x mx
        where
          other : (x : A) → Memᴰ x xs → p x ≡ false → key x ≡ k → ⊥
          other x mx t same =
              let told_x = h.tells x mx in
              let first = here in
              let one : state x ≡ from = cc in let found = finds x same one in cc
