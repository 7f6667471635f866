-- ===== src/Prelude/Ensures.antt =====
-- What a statement ensures, by how it ends, with a rule for each statement that branches.
use mathlib.Core.Path.{◌≡◌, refl}
use mathlib.Core.Bool.{Bool, true, false}
use mathlib.Core.Option.{Option, none, some}
use mathlib.Core.List.{List, [], ◌∷◌}
use ska_sdp_mini_control.Prelude.Effects.{
  Exc, Result, ok, err, Action, or_raise, raise_if, tx, ◌>>=◌, ◌>>◌, and_then, commit_or_rollback,
  handle, try_except, try_finally, suppress, suppress_transition_error, hide_transition_error,
  for_each, transition_error, key_error, missing_key, system_exit, value_error, runtime_error,
  file_not_found, os_error, integrity_error, timeout_error,
}

-- `P` holds of the value and the state after a return, and `E` of the state after a raise.
pub data Ensures {S A : Type 0} (P : A → S → Type 0) (E : S → Type 0) : Result A × S → Type 0 where
  returned : {a : A} {s : S} → P a s → Ensures P E (ok a, s)
  raised : {e : Exc} {s : S} → E s → Ensures P E (err e, s)

module _ {S A B : Type 0} {P : B → S → Type 0} {E : S → Type 0} where
  pub or_raise-bind :
      (o : Option A) (e : Exc) (k : A → Action S B) (s : S)
      → E s
      → ((a : A) → o ≡ some a → Ensures P E (k a s))
      → Ensures P E ((or_raise o e >>= k) s)
  unfolding ◌>>=◌
  or_raise-bind none e k s missing found = raised missing
  or_raise-bind (some a) e k s missing found = found a refl

  pub bind :
      (Q : A → S → Type 0) (m : Action S A) (k : A → Action S B) (s : S)
      → Ensures Q E (m s)
      → ((a : A) (t : S) → Q a t → Ensures P E (k a t))
      → Ensures P E ((m >>= k) s)
  unfolding ◌>>=◌
  bind Q m k s h rest = go (m s) h
    where
      go : (r : Result A × S) → Ensures Q E r → Ensures P E (and_then r.0 k r.1)
      go _ (returned {a} {s = t} q) = rest a t q
      go _ (raised x) = raised x

  pub bind_then :
      (Q : S → Type 0) (m : Action S A) (k : Action S B) (s : S)
      → Ensures (λ _ t. Q t) E (m s)
      → ((t : S) → Q t → Ensures P E (k t))
      → Ensures P E ((m >> k) s)
  unfolding ◌>>◌
  bind_then Q m k s h rest = bind (λ _ t. Q t) m (λ _. k) s h (λ a t q. rest t q)

  -- A statement that changes nothing where it returns.
  pub bind_read :
      (Q : A → Type 0) (m : Action S A) (k : A → Action S B) (s : S)
      → Ensures (λ a t. (t ≡ s) × Q a) E (m s)
      → ((a : A) → Q a → Ensures P E (k a s))
      → Ensures P E ((m >>= k) s)
  bind_read Q m k s h rest =
      bind (λ a t. (t ≡ s) × Q a) m k s h (λ a t (same, q). rw same (rest a q))

  pub then_read :
      (Q : A → Type 0) (m : Action S A) (k : Action S B) (s : S)
      → Ensures (λ a t. (t ≡ s) × Q a) E (m s)
      → ((a : A) → Q a → Ensures P E (k s))
      → Ensures P E ((m >> k) s)
  unfolding ◌>>◌
  then_read Q m k s h rest = bind_read Q m (λ _. k) s h rest

  -- A statement that leaves one state where it returns.
  pub then_writes :
      (m : Action S A) (k : Action S B) (s : S) {w : S}
      → Ensures (λ _ t. t ≡ w) E (m s)
      → Ensures P E (k w)
      → Ensures P E ((m >> k) s)
  unfolding ◌>>◌
  then_writes m k s {w} h rest = bind (λ _ t. t ≡ w) m (λ _. k) s h (λ a t same. rw same rest)

  -- A statement that does not raise.
  pub bind_ok :
      (m : Action S A) (k : A → Action S B) (s : S) {a : A} {t : S}
      → m s ≡ (ok a, t)
      → Ensures P E (k a t)
      → Ensures P E ((m >>= k) s)
  unfolding ◌>>=◌
  bind_ok m k s e h = rw e h

  pub then_ok :
      (m : Action S A) (k : Action S B) (s : S) {a : A} {t : S}
      → m s ≡ (ok a, t)
      → Ensures P E (k t)
      → Ensures P E ((m >> k) s)
  unfolding ◌>>◌
  then_ok m k s e h = rw e h

module _ {S B : Type 0} {P : B → S → Type 0} {E : S → Type 0} where
  pub raise_if-then :
      (b : Bool) (e : Exc) (k : Action S B) (s : S)
      → E s
      → (b ≡ false → Ensures P E (k s))
      → Ensures P E ((raise_if b e >> k) s)
  unfolding ◌>>◌
  raise_if-then true e k s refused goes_on = raised refused
  raise_if-then false e k s refused goes_on = goes_on refl

pub raise_if_passes :
    {S B : Type 0} {P : B → S → Type 0} {E : S → Type 0} (b : Bool) (e : Exc) (k : Action S B)
    (s : S)
    → b ≡ false
    → Ensures P E (k s)
    → Ensures P E ((raise_if b e >> k) s)
unfolding ◌>>◌
raise_if_passes true e k s passes h = absurd cc
raise_if_passes false e k s passes h = h

pub weaken :
    {S A : Type 0} {P Q : A → S → Type 0} {E : S → Type 0} {r : Result A × S}
    → ((a : A) (s : S) → P a s → Q a s)
    → Ensures P E r
    → Ensures Q E r
weaken h (returned {a} {s} p) = returned (h a s p)
weaken h (raised e) = raised e

pub weaken_both :
    {S A : Type 0} {P Q : A → S → Type 0} {E F : S → Type 0} {r : Result A × S}
    → ((a : A) (s : S) → P a s → Q a s)
    → ((s : S) → E s → F s)
    → Ensures P E r
    → Ensures Q F r
weaken_both h k (returned {a} {s} p) = returned (h a s p)
weaken_both h k (raised {s} e) = raised (k s e)

-- What holds of the state, whichever way a statement ends.
pub either_way :
    {S A : Type 0} {P : A → S → Type 0} {E : S → Type 0} {r : Result A × S} (X : S → Type 0)
    → ((a : A) (s : S) → P a s → X s)
    → ((s : S) → E s → X s)
    → Ensures P E r
    → X r.1
either_way X h k (returned {a} {s} p) = h a s p
either_way X h k (raised {s} e) = k s e

-- What holds of every state.
pub in_any_case :
    {S A : Type 0} {P : A → S → Type 0} {E : S → Type 0} (r : Result A × S)
    → ((a : A) (s : S) → P a s)
    → ((s : S) → E s)
    → Ensures P E r
in_any_case (ok a, s) p e = returned (p a s)
in_any_case (err x, s) p e = raised (e s)

pub raise_if_last :
    {S : Type 0} {P : Unit {0} → S → Type 0} {E : S → Type 0} (b : Bool) (e : Exc) (s : S)
    → E s
    → (b ≡ false → P tt s)
    → Ensures P E (raise_if b e s)
raise_if_last true e s refused goes_on = raised refused
raise_if_last false e s refused goes_on = returned (goes_on refl)

pub or_raise_last :
    {S A : Type 0} {P : A → S → Type 0} {E : S → Type 0} (o : Option A) (e : Exc) (s : S)
    → E s
    → ((a : A) → o ≡ some a → P a s)
    → Ensures P E (or_raise o e s)
or_raise_last none e s missing found = raised missing
or_raise_last (some a) e s missing found = returned (found a refl)

-- A transaction that raises has changed nothing.
pub tx_rule :
    {S B : Type 0} (P : B → S → Type 0) (m : Action S B) (s : S)
    → Ensures P (λ _. Unit) (m s)
    → Ensures P (λ t. t ≡ s) (tx m s)
unfolding tx
tx_rule {S} {B} P m s h = go (m s) h
  where
    go :
        (r : Result B × S)
        → Ensures P (λ _. Unit) r
        → Ensures P (λ t. t ≡ s) (commit_or_rollback r.0 s r.1)
    go _ (returned p) = returned p
    go _ (raised _) = raised refl

module _ {S : Type 0} where
  -- A handler that takes over from where the statement raised.
  pub try_rule :
      {A : Type 0} {P : A → S → Type 0} {E : S → Type 0} (Q : S → Type 0) (m : Action S A)
      (h : Exc → Action S A) (s : S)
      → Ensures P Q (m s)
      → ((e : Exc) (t : S) → Q t → Ensures P E (h e t))
      → Ensures P E (try_except m h s)
  unfolding try_except
  try_rule {A} {P} {E} Q m h s done handled = go (m s) done
    where
      go : (r : Result A × S) → Ensures P Q r → Ensures P E (handle r.0 h r.1)
      go _ (returned p) = returned p
      go _ (raised {e} {s = t} q) = handled e t q

  -- A body that does not raise goes on to the `finally`.
  pub finally_ok :
      {P : Unit {0} → S → Type 0} {E : S → Type 0} (m f : Action S (Unit {0})) (s : S) {t : S}
      → m s ≡ (ok tt, t)
      → Ensures P E (f t)
      → Ensures P E (try_finally m f s)
  unfolding try_finally
  finally_ok m f s e h = rw e h

  pub suppress_rule :
      {A : Type 0} {E : S → Type 0} (Q : S → Type 0) (m : Action S A) (s : S)
      → Ensures (λ _. Q) Q (m s)
      → Ensures (λ _. Q) E (suppress m s)
  unfolding suppress
  suppress_rule {A} {E} Q m s done = go (m s) done
    where
      go : (r : Result A × S) → Ensures (λ _. Q) Q r → Ensures (λ _. Q) E (ok tt, r.1)
      go _ (returned q) = returned q
      go _ (raised q) = returned q

  pub suppress_transition_rule :
      {P : Unit {0} → S → Type 0} {E : S → Type 0} (m : Action S (Unit {0})) (s : S)
      → Ensures P E (m s)
      → ((t : S) → E t → P tt t)
      → Ensures P E (suppress_transition_error m s)
  unfolding suppress_transition_error
  suppress_transition_rule {P} {E} m s done hidden =
      try_rule E m hide_transition_error s done λ e t q. go e t q
    where
      go : (e : Exc) (t : S) → E t → Ensures P E (hide_transition_error e t)
      go (transition_error _) t q = returned (hidden t q)
      go (key_error _) t q = raised q
      go (missing_key _) t q = raised q
      go (system_exit _) t q = raised q
      go (value_error _) t q = raised q
      go (runtime_error _) t q = raised q
      go (file_not_found _) t q = raised q
      go (os_error _) t q = raised q
      go (integrity_error _) t q = raised q
      go timeout_error t q = raised q

  -- A loop keeps what holds of the elements that are left.
  pub for_each_rule :
      {X : Type 0} {E : S → Type 0} (I : List X → S → Type 0) (f : X → Action S (Unit {0}))
      → ((x : X) (xs : List X) (s : S) → I (x ∷ xs) s → Ensures (λ _ t. I xs t) E (f x s))
      → (xs : List X) (s : S) → I xs s
      → Ensures (λ _ t. I [] t) E (for_each xs f s)
  unfolding for_each
  for_each_rule I f step [] s here = returned here
  for_each_rule I f step (x ∷ xs) s here =
      bind_then (I xs) (f x) (for_each xs f) s (step x xs s here)
        λ t rest. for_each_rule I f step xs t rest

-- A statement that is known to return needs no claim for a raise.
pub returned_ok :
    {S A : Type 0} {P : A → S → Type 0} {E F : S → Type 0} {r : Result A × S} (a : A)
    → r.0 ≡ ok a
    → Ensures P E r
    → Ensures P F r
returned_ok a e (returned p) = returned p
returned_ok a e (raised x) = absurd cc

module _ {S A : Type 0} where
  abbrev Case : (A → S → Type 0) → (S → Type 0) → Result A → S → Type 0
  Case P E (ok a) s = P a s
  Case P E (err e) s = E s

  claimed :
      {P : A → S → Type 0} {E : S → Type 0} {r : Result A × S} → Ensures P E r → Case P E r.0 r.1
  claimed (returned p) = p
  claimed (raised e) = e

  -- Two claims of one statement.
  pub both :
      {P Q : A → S → Type 0} {E F : S → Type 0} (r : Result A × S)
      → Ensures P E r
      → Ensures Q F r
      → Ensures (λ a t. P a t × Q a t) (λ t. E t × F t) r
  both {P} {Q} {E} {F} (ok a, s) p q = returned (claimed p, claimed q)
  both {P} {Q} {E} {F} (err x, s) p q = raised (claimed p, claimed q)
