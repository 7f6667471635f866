-- ===== src/Prelude/Table.antt =====
-- The SQL statements on one table, over the list of its rows: SELECT, SELECT 1, COUNT(*), UPDATE.
use Prim.Native.Nat.{ℕ, suc, ◌+◌, max}
use mathlib.Core.Path.{◌≡◌, refl, sym, ap, ◌∙◌, subst}
use mathlib.Core.Logic.{◌⊎◌, inl, inr}
use mathlib.Core.Bool.{Bool, true, false, ◌||◌}
use mathlib.Core.Option.{Option, none, some}
use mathlib.Core.List.{List, [], ◌∷◌, ◌++◌, Memᴰ}
use native.Mathlib.Omega.{arith}
use ska_sdp_mini_control.Prelude.Tests.{if◌then◌else◌, Bool-cases}

module _ {ℓ} {A : Type ℓ} where
  abbrev pub length : List A → ℕ
  length [] = 0
  length (_ ∷ xs) = suc (length xs)

  -- SELECT * … WHERE p
  unfoldable pub select : (A → Bool) → List A → List A
  select p [] = []
  select p (x ∷ xs) = let rest = select p xs in if p x then x ∷ rest else rest

  -- SELECT * … WHERE p, fetchone()
  unfoldable pub find : (A → Bool) → List A → Option A
  find p [] = none
  find p (x ∷ xs) = if p x then some x else find p xs

  -- SELECT 1 … WHERE p LIMIT 1
  unfoldable pub any : (A → Bool) → List A → Bool
  any p [] = false
  any p (x ∷ xs) = p x || any p xs

  -- SELECT COUNT(*) … WHERE p, and the rowcount of an UPDATE
  unfoldable pub count : (A → Bool) → List A → ℕ
  count p [] = 0
  count p (x ∷ xs) = let rest = count p xs in if p x then suc rest else rest

  abbrev pub apply_if : (A → Bool) → (A → A) → A → A
  apply_if p f x = if p x then f x else x

  -- UPDATE … SET f WHERE p
  unfoldable pub update : (A → Bool) → (A → A) → List A → List A
  update p f [] = []
  update p f (x ∷ xs) = apply_if p f x ∷ update p f xs

  -- SELECT COALESCE(SUM(f), 0) … WHERE p
  unfoldable pub sum_where : (A → Bool) → (A → ℕ) → List A → ℕ
  sum_where p f [] = 0
  sum_where p f (x ∷ xs) = let rest = sum_where p f xs in if p x then f x + rest else rest

  -- SELECT COALESCE(MAX(f), 0) … WHERE p
  unfoldable pub max_where : (A → Bool) → (A → ℕ) → List A → ℕ
  max_where p f [] = 0
  max_where p f (x ∷ xs) = let rest = max_where p f xs in if p x then max (f x) rest else rest

module _ {ℓ} {A : Type ℓ} where
  pub find-mem :
      (p : A → Bool) (xs : List A) {x : A} → find p xs ≡ some x → Memᴰ x xs × (p x ≡ true)
  unfolding find
  find-mem p [] h = cc
  find-mem p (y ∷ ys) {x} h = elim (Bool-cases (p y)) [
    | inl e ↦ let same : y ≡ x = ground arith in (Memᴰ.head (sym same), rw (← same) e)
    | inr e ↦ let rest = find-mem p ys {x = x} (rw e at h) in (Memᴰ.tail rest.0, rest.1)
  ]

  pub find-none : (p : A → Bool) (xs : List A) {x : A} → find p xs ≡ none → Memᴰ x xs → p x ≡ false
  unfolding find
  find-none p [] h m = elim m [ ]
  find-none p (y ∷ ys) h (Memᴰ.head e) = rw e (ground arith)
  find-none p (y ∷ ys) h (Memᴰ.tail m) = elim (Bool-cases (p y)) [
    | inl e ↦ cc (rw e at h)
    | inr e ↦ find-none p ys (rw e at h) m
  ]

  pub any-mem : (p : A → Bool) (xs : List A) → any p xs ≡ true → (x : A) × Memᴰ x xs × (p x ≡ true)
  unfolding any
  any-mem p [] h = cc
  any-mem p (y ∷ ys) h = elim (Bool-cases (p y)) [
    | inl e ↦ (y, Memᴰ.head refl, e)
    | inr e ↦ let (x, m, px) = any-mem p ys (rw e at h) in (x, Memᴰ.tail m, px)
  ]

  pub any-false : (p : A → Bool) (xs : List A) {x : A} → any p xs ≡ false → Memᴰ x xs → p x ≡ false
  unfolding any
  any-false p [] h m = elim m [ ]
  any-false p (y ∷ ys) h (Memᴰ.head e) = rw e (ground arith)
  any-false p (y ∷ ys) h (Memᴰ.tail m) = any-false p ys (ground arith) m

  pub any_of_mem : (p : A → Bool) (xs : List A) {x : A} → Memᴰ x xs → p x ≡ true → any p xs ≡ true
  unfolding any
  any_of_mem p [] m h = elim m [ ]
  any_of_mem p (y ∷ ys) {x} (Memᴰ.head e) h = let e' : p y ≡ true = rw (← e) h in ground arith
  any_of_mem p (y ∷ ys) (Memᴰ.tail m) h = ground (arith, any_of_mem p ys m h)

  pub mem-select :
      (p : A → Bool) (xs : List A) {x : A} → Memᴰ x (select p xs) → Memᴰ x xs × (p x ≡ true)
  unfolding select
  mem-select p [] m = elim m [ ]
  mem-select p (y ∷ ys) {x} m = elim (Bool-cases (p y)) [
    | inl e ↦ go e (mem-select p ys {x = x}) (rw e at m)
    | inr e ↦ let rest = mem-select p ys {x = x} (rw e at m) in (Memᴰ.tail rest.0, rest.1)
  ]
    where
      go :
          p y ≡ true
          → (Memᴰ x (select p ys) → Memᴰ x ys × (p x ≡ true))
          → Memᴰ x (y ∷ select p ys)
          → Memᴰ x (y ∷ ys) × (p x ≡ true)
      go e rest (Memᴰ.head q) = (Memᴰ.head q, rw q e)
      go e rest (Memᴰ.tail r) = (Memᴰ.tail (rest r).0, (rest r).1)

  pub select-mem :
      (p : A → Bool) (xs : List A) {x : A} → Memᴰ x xs → p x ≡ true → Memᴰ x (select p xs)
  unfolding select
  select-mem p [] m h = elim m [ ]
  select-mem p (y ∷ ys) {x} (Memᴰ.head e) h =
      let e' : p y ≡ true = rw (← e) h in rw e' (Memᴰ.head e)
  select-mem p (y ∷ ys) (Memᴰ.tail m) h = elim (Bool-cases (p y)) [
    | inl e ↦ rw e (Memᴰ.tail (select-mem p ys m h))
    | inr e ↦ rw e (select-mem p ys m h)
  ]

  pub mem-append_one : (xs : List A) {x a : A} → Memᴰ x (xs ++ a ∷ []) → Memᴰ x xs ⊎ (x ≡ a)
  mem-append_one [] (Memᴰ.head e) = inr e
  mem-append_one [] (Memᴰ.tail m) = elim m [ ]
  mem-append_one (y ∷ ys) (Memᴰ.head e) = inl (Memᴰ.head e)
  mem-append_one (y ∷ ys) (Memᴰ.tail m) = elim (mem-append_one ys m) [
    | inl old ↦ inl (Memᴰ.tail old)
    | inr new ↦ inr new
  ]

  pub mem-append_old : (xs : List A) (a : A) {x : A} → Memᴰ x xs → Memᴰ x (xs ++ a ∷ [])
  mem-append_old [] a m = elim m [ ]
  mem-append_old (y ∷ ys) a (Memᴰ.head e) = Memᴰ.head e
  mem-append_old (y ∷ ys) a (Memᴰ.tail m) = Memᴰ.tail (mem-append_old ys a m)

  pub mem-append_new : (xs : List A) (a : A) → Memᴰ a (xs ++ a ∷ [])
  mem-append_new [] a = Memᴰ.head refl
  mem-append_new (y ∷ ys) a = Memᴰ.tail (mem-append_new ys a)

  module _ (p : A → Bool) (f : A → A) where
    pub mem-update :
        (xs : List A) {y : A} → Memᴰ y (update p f xs) → (x : A) × Memᴰ x xs × (y ≡ apply_if p f x)
    unfolding update
    mem-update [] m = elim m [ ]
    mem-update (x ∷ xs) (Memᴰ.head e) = (x, Memᴰ.head refl, e)
    mem-update (x ∷ xs) (Memᴰ.tail m) = let (z, old, e) = mem-update xs m in (z, Memᴰ.tail old, e)

    pub update-mem : (xs : List A) {x : A} → Memᴰ x xs → Memᴰ (apply_if p f x) (update p f xs)
    unfolding update
    update-mem [] m = elim m [ ]
    update-mem (y ∷ ys) (Memᴰ.head e) = Memᴰ.head (ap (apply_if p f) e)
    update-mem (y ∷ ys) (Memᴰ.tail m) = Memᴰ.tail (update-mem ys m)

    -- What holds of every row after an UPDATE.
    pub update_all {κ} :
        (P : A → Type κ) (xs : List A)
        → ((x : A) → Memᴰ x xs → p x ≡ true → P (f x))
        → ((x : A) → Memᴰ x xs → p x ≡ false → P x)
        → (y : A) → Memᴰ y (update p f xs)
        → P y
    update_all P xs hit miss y m = let (x, old, e) = mem-update xs m in go x old e (p x) refl
      where
        go : (x : A) → Memᴰ x xs → y ≡ apply_if p f x → (b : Bool) → p x ≡ b → P y
        go x old e true t = subst P (sym (e ∙ ap (λ b. if b then f x else x) t)) (hit x old t)
        go x old e false t = subst P (sym (e ∙ ap (λ b. if b then f x else x) t)) (miss x old t)

  pub append_all {κ} :
      (P : A → Type κ) (xs : List A) (a : A)
      → ((x : A) → Memᴰ x xs → P x)
      → P a
      → (y : A) → Memᴰ y (xs ++ a ∷ [])
      → P y
  append_all P xs a old new y m = elim (mem-append_one xs m) [
    | inl n ↦ old y n
    | inr e ↦ subst P (sym e) new
  ]

  pub count-append_one :
      (p : A → Bool) (xs : List A) (a : A) → count p (xs ++ a ∷ []) ≡ count p xs + count p (a ∷ [])
  unfolding count
  count-append_one p [] a = ground arith
  count-append_one p (x ∷ xs) a = ground (arith, count-append_one p xs a)
