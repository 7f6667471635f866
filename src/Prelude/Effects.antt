-- ===== src/Prelude/Effects.antt =====
-- Statements that change a state and may raise. What was written before a raise stays written, so
-- the state comes back beside the exception too; only a transaction takes its writes back.
use Prim.Native.Nat.{ℕ}
use Prim.Native.String.{String}
use mathlib.Core.Bool.{Bool, true, false}
use mathlib.Core.Option.{Option, none, some}
use mathlib.Core.List.{List, [], ◌∷◌}
use ska_sdp_mini_control.Prelude.Tests.{if◌then◌else◌}

-- An exception, with what its message is built from.
pub data Exc : Type 0 where
  key_error : ℕ → Exc
  missing_key : String → Exc
  system_exit : String → Exc
  transition_error : String → Exc
  value_error : String → Exc
  runtime_error : String → Exc
  file_not_found : String → Exc
  os_error : String → Exc
  integrity_error : String → Exc
  timeout_error : Exc

pub data Result (A : Type 0) : Type 0 where
  ok : A → Result A
  err : Exc → Result A

abbrev pub Action : Type 0 → Type 0 → Type 0
Action S A = S → Result A × S

module _ {S A : Type 0} where
  abbrev pub pure : A → Action S A
  pure a s = (ok a, s)

  abbrev pub raise : Exc → Action S A
  raise e s = (err e, s)

  abbrev pub gets : (S → A) → Action S A
  gets f s = (ok (f s), s)

  abbrev pub or_raise : Option A → Exc → Action S A
  or_raise none e = raise e
  or_raise (some a) e = pure a

  abbrev pub commit_or_rollback : Result A → S → S → Result A × S
  commit_or_rollback (ok a) before after = (ok a, after)
  commit_or_rollback (err e) before after = (err e, before)

  -- BEGIN IMMEDIATE … COMMIT, with a ROLLBACK on any exception
  unfoldable pub tx : Action S A → Action S A
  tx m s = let (r, s') = m s in commit_or_rollback r s s'

  abbrev pub handle : Result A → (Exc → Action S A) → Action S A
  handle (ok a) h = pure a
  handle (err e) h = h e

  -- `try: m` / `except Exception as e: h e`
  unfoldable pub try_except : Action S A → (Exc → Action S A) → Action S A
  try_except m h s = let (r, s') = m s in handle r h s'

module _ {S : Type 0} where
  abbrev pub reraise_all : Exc → Result (Unit {0}) → S → Result (Unit {0}) × S
  reraise_all e (ok a) t = (err e, t)
  reraise_all e (err e') t = (err e', t)

  abbrev pub finally_after : Result (Unit {0}) → Action S (Unit {0}) → Action S (Unit {0})
  finally_after (ok a) f s = f s
  finally_after (err e) f s = let (r, t) = f s in reraise_all e r t

  -- `try: m` / `finally: f`
  unfoldable pub try_finally : Action S (Unit {0}) → Action S (Unit {0}) → Action S (Unit {0})
  try_finally m f s = let (r, s') = m s in finally_after r f s'

module _ {S A B : Type 0} where
  abbrev pub and_then : Result A → (A → Action S B) → Action S B
  and_then (ok a) f = f a
  and_then (err e) f = raise e

  infixl 5 ◌>>=◌ ◌>>◌
  unfoldable pub ◌>>=◌ : Action S A → (A → Action S B) → Action S B
  ◌>>=◌ m f s = let (r, s') = m s in and_then r f s'

  unfoldable pub ◌>>◌ : Action S A → Action S B → Action S B
  unfolding ◌>>=◌
  m >> n = m >>= λ _. n

module _ {S : Type 0} where
  abbrev pub raise_if : Bool → Exc → Action S (Unit {0})
  raise_if true e s = (err e, s)
  raise_if false e s = (ok tt, s)

  abbrev pub modify : (S → S) → Action S (Unit {0})
  modify f s = (ok tt, f s)

  abbrev pub skip : Action S (Unit {0})
  skip s = (ok tt, s)

-- The exceptions of class TransitionError.
abbrev pub is_transition_error : Exc → Bool
is_transition_error (transition_error _) = true
is_transition_error _ = false

module _ {S : Type 0} where
  -- `with suppress(Exception)`, of a statement whose value is not used
  unfoldable pub suppress : {A : Type 0} → Action S A → Action S (Unit {0})
  suppress m s = let (r, s') = m s in (ok tt, s')

  abbrev pub hide_transition_error : Exc → Action S (Unit {0})
  hide_transition_error e = if is_transition_error e then skip else raise e

  -- `with suppress(TransitionError)`
  unfoldable pub suppress_transition_error : Action S (Unit {0}) → Action S (Unit {0})
  unfolding try_except
  suppress_transition_error m = try_except m hide_transition_error

  -- `for x in xs`
  unfoldable pub for_each : {X : Type 0} → List X → (X → Action S (Unit {0})) → Action S (Unit {0})
  unfolding ◌>>◌
  for_each [] f = skip
  for_each (x ∷ xs) f = do f x; for_each xs f
