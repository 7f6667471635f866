-- ===== src/Prelude/Keyed.antt =====
-- Tables whose rows are in the order of an AUTOINCREMENT key.
use Prim.Native.Nat.{ℕ, ◌≤◌, ◌<◌}
use mathlib.Core.Path.{◌≡◌, refl, ap}
use mathlib.Core.Logic.{inl, inr}
use mathlib.Core.Bool.{Bool, true, ◌&&◌}
use mathlib.Core.Option
use mathlib.Core.Option.{Option, none, some}
use mathlib.Core.List.{List, [], ◌∷◌, ◌++◌, Memᴰ}
use native.Mathlib.Omega.{arith}
use ska_sdp_mini_control.Prelude.Tests.{if◌then◌else◌, Bool-cases, ◌==◌}
use ska_sdp_mini_control.Prelude.Table.{find, count, update, apply_if}

count_zero {ℓ} :
    {A : Type ℓ} (p : A → Bool) (xs : List A)
    → ((a : A) → Memᴰ a xs → p a ≡ true → ⊥)
    → count p xs ≡ 0
unfolding count
count_zero p [] no_one = refl
count_zero p (x ∷ xs) no_one = elim (Bool-cases (p x)) [
  | inl pass ↦ absurd (no_one x (Memᴰ.head refl) pass)
  | inr fail ↦ ground (arith, count_zero p xs (λ a m. no_one a (Memᴰ.tail m)))
]

module _ {ℓ} {A : Type ℓ} (key : A → ℕ) where
  -- The keys go up strictly from above `lo`, and end at most at `hi`.
  abbrev pub IsAscending : ℕ → List A → ℕ → Type 0
  IsAscending lo [] hi = lo ≤ hi
  IsAscending lo (x ∷ xs) hi = (lo < key x) × IsAscending (key x) xs hi

  pub IsAscending-le : (lo : ℕ) (xs : List A) (hi : ℕ) → IsAscending lo xs hi → lo ≤ hi
  IsAscending-le lo [] hi h = h
  IsAscending-le lo (x ∷ xs) hi h = omega (arith, IsAscending-le (key x) xs hi h.1)

  pub IsAscending-mem :
      (lo : ℕ) (xs : List A) (hi : ℕ) {x : A}
      → IsAscending lo xs hi
      → Memᴰ x xs
      → (lo < key x) × (key x ≤ hi)
  IsAscending-mem lo [] hi h m = elim m [ ]
  IsAscending-mem lo (y ∷ ys) hi {x} h (Memᴰ.head e) =
      omega (arith, IsAscending-le (key y) ys hi h.1, ap key e)
  IsAscending-mem lo (y ∷ ys) hi {x} h (Memᴰ.tail m) =
      omega (arith, IsAscending-mem (key y) ys hi {x = x} h.1 m)

  pub IsAscending-append :
      (lo : ℕ) (xs : List A) (hi : ℕ) (a : A)
      → IsAscending lo xs hi
      → hi < key a
      → IsAscending lo (xs ++ a ∷ []) (key a)
  IsAscending-append lo [] hi a h lt = omega arith
  IsAscending-append lo (x ∷ xs) hi a h lt = (h.0, IsAscending-append (key x) xs hi a h.1 lt)

  -- A key is met once.
  pub mem_unique :
      (lo : ℕ) (xs : List A) (hi : ℕ) {x y : A}
      → IsAscending lo xs hi
      → Memᴰ x xs
      → Memᴰ y xs
      → key x ≡ key y
      → x ≡ y
  mem_unique lo [] hi h m n e = elim m [ ]
  mem_unique lo (z ∷ zs) hi h (Memᴰ.head p) (Memᴰ.head q) e = cc
  mem_unique lo (z ∷ zs) hi {x} {y} h (Memᴰ.head p) (Memᴰ.tail n) e =
      absurd (omega (arith, IsAscending-mem (key z) zs hi {x = y} h.1 n, ap key p))
  mem_unique lo (z ∷ zs) hi {x} {y} h (Memᴰ.tail m) (Memᴰ.head q) e =
      absurd (omega (arith, IsAscending-mem (key z) zs hi {x = x} h.1 m, ap key q))
  mem_unique lo (z ∷ zs) hi h (Memᴰ.tail m) (Memᴰ.tail n) e = mem_unique (key z) zs hi h.1 m n e

  -- A test that no two rows pass counts at most one.
  pub count_unique :
      (lo : ℕ) (p : A → Bool) (xs : List A) (hi : ℕ)
      → IsAscending lo xs hi
      → ((a b : A) → Memᴰ a xs → Memᴰ b xs → p a ≡ true → p b ≡ true → a ≡ b)
      → count p xs ≤ 1
  unfolding count
  count_unique lo p [] hi h same = omega arith
  count_unique lo p (x ∷ xs) hi h same =
      let rest =
        count_unique (key x) p xs hi h.1 (λ a b ma mb. same a b (Memᴰ.tail ma) (Memᴰ.tail mb)) in
      elim (Bool-cases (p x)) [
        | inl pass ↦
            let none_left : count p xs ≡ 0 = count_zero p xs λ b mb tb. absurd (
              omega (
                arith,
                IsAscending-mem (key x) xs hi {x = b} h.1 mb,
                ap key (same x b (Memᴰ.head refl) (Memᴰ.tail mb) pass tb),
              )) in
            ground (arith, none_left)
        | inr fail ↦ ground (arith, rest)
      ]

  -- WHERE id = k
  abbrev pub has_key : ℕ → A → Bool
  has_key k x = key x == k

  pub find_key :
      (lo : ℕ) (xs : List A) (hi : ℕ) {x : A}
      → IsAscending lo xs hi
      → Memᴰ x xs
      → find (has_key (key x)) xs ≡ some x
  unfolding find
  find_key lo [] hi h m = elim m [ ]
  find_key lo (y ∷ ys) hi {x} h (Memᴰ.head e) = ground (arith, ap key e)
  find_key lo (y ∷ ys) hi {x} h (Memᴰ.tail m) =
      ground (arith, find_key (key y) ys hi h.1 m, IsAscending-mem (key y) ys hi {x = x} h.1 m)

  count_above :
      (k lo : ℕ) (q : A → Bool) (xs : List A) (hi : ℕ)
      → IsAscending lo xs hi
      → k ≤ lo
      → count (λ x. has_key k x && q x) xs ≡ 0
  unfolding count
  count_above k lo q [] hi h le = refl
  count_above k lo q (x ∷ xs) hi h le = ground (arith, count_above k (key x) q xs hi h.1)

  -- The rowcount of an UPDATE that is guarded by the key and one more test.
  abbrev pub guarded_rowcount : (A → Bool) → Option A → ℕ
  guarded_rowcount q none = 0
  guarded_rowcount q (some x) = if q x then 1 else 0

  pub count_guarded :
      (k lo : ℕ) (q : A → Bool) (xs : List A) (hi : ℕ)
      → IsAscending lo xs hi
      → count (λ x. has_key k x && q x) xs ≡ guarded_rowcount q (find (has_key k) xs)
  unfolding count find
  count_guarded k lo q [] hi h = refl
  count_guarded k lo q (x ∷ xs) hi h =
      ground (arith, count_guarded k (key x) q xs hi h.1, count_above k (key x) q xs hi h.1)

  -- An UPDATE by the newest key changes the newest row alone.
  pub update_newest :
      (k lo : ℕ) (f : A → A) (xs : List A) (hi : ℕ) (a : A)
      → IsAscending lo xs hi
      → hi < key a
      → key a ≡ k
      → update (has_key k) f (xs ++ a ∷ []) ≡ xs ++ f a ∷ []
  unfolding update
  update_newest k lo f [] hi a h lt e = ground arith
  update_newest k lo f (x ∷ xs) hi a h lt e =
      ground (arith, update_newest k (key x) f xs hi a h.1 lt e, IsAscending-le (key x) xs hi h.1)

  module _ (p : A → Bool) (f : A → A) (same : (x : A) → key (f x) ≡ key x) where
    key-apply_if : (x : A) → key (apply_if p f x) ≡ key x
    key-apply_if x = ground (arith, same x)

    pub IsAscending-update :
        (lo : ℕ) (xs : List A) (hi : ℕ) → IsAscending lo xs hi → IsAscending lo (update p f xs) hi
    unfolding update
    IsAscending-update lo [] hi h = h
    IsAscending-update lo (x ∷ xs) hi h =
        rw key-apply_if (h.0, IsAscending-update (key x) xs hi h.1)

    pub find-update :
        (k : ℕ) (xs : List A)
        → find (has_key k) (update p f xs) ≡ Option.map (apply_if p f) (find (has_key k) xs)
    unfolding find update
    find-update k [] = refl
    find-update k (x ∷ xs) = ground (arith, find-update k xs, same x)
