-- ===== src/Storage/Quarantine/Names.antt =====
-- The search for a free name ends: of more names than there are files one is free.
use ska_sdp_mini_control.Prelude.{
  ℕ, zero, suc, ◌+◌, ◌≤◌, ◌<◌, ◌≡◌, refl, sym, ◌∙◌, true, false, Bool-cases, Option-cases, inl, inr,
  String, Option, none, some, List, [], ◌∷◌, arith, any, length, if◌then◌else◌,
}
use mathlib.Core.List.{append_cancel_left, head-eq_of_cons-eq, tail-eq_of_cons-eq}
use text.Mathlib.TextLemmas
use ska_sdp_mini_control.Prelude.Format.{concat, zero_pad}
use ska_sdp_mini_control.Prelude.Format.Read.{zero_pad-injective}
use ska_sdp_mini_control.Models.{FilePath}
use ska_sdp_mini_control.Files.{Files, Entry, exists, at_path, path_eq}
use ska_sdp_mini_control.Files.Paths.{path_eq_iff}
use ska_sdp_mini_control.Storage.Quarantine.{
  quarantined, candidate, first_free, unique_quarantine_target,
}

module _ (f : ℕ → FilePath) (differ : (m n : ℕ) → f m ≡ f n → m ≡ n) where
  -- How many of the first `k` names from `s` on a file has.
  hits : ℕ → ℕ → List Entry → ℕ
  hits s zero es = 0
  hits s (suc k) es = hits s k es + (if any (at_path (f (s + k))) es then 1 else 0)

  -- How many of them one file has.
  single : ℕ → ℕ → Entry → ℕ
  single s zero e = 0
  single s (suc k) e = single s k e + (if at_path (f (s + k)) e then 1 else 0)

  single-eq-zero : (s k j : ℕ) (e : Entry) → e.0 ≡ f (s + j) → k ≤ j → single s k e ≡ 0
  unfolding single
  single-eq-zero s zero j e at h = refl
  single-eq-zero s (suc k) j e at h = elim (Bool-cases (path_eq e.0 (f (s + k)))) [
    | inl same ↦
        let two : f (s + k) ≡ f (s + j) = sym ((path_eq_iff e.0 (f (s + k))).0 same) ∙ at in
        absurd (omega (arith, differ (s + k) (s + j) two))
    | inr other ↦ rw other (omega (arith, single-eq-zero s k j e at (omega arith)))
  ]

  single-le-one : (s k : ℕ) (e : Entry) → single s k e ≤ 1
  unfolding single
  single-le-one s zero e = omega arith
  single-le-one s (suc k) e = elim (Bool-cases (path_eq e.0 (f (s + k)))) [
    | inl same ↦
        rw same (
          omega
            (arith, single-eq-zero s k k e ((path_eq_iff e.0 (f (s + k))).0 same) (omega arith)))
    | inr other ↦ rw other (omega (arith, single-le-one s k e))
  ]

  hits-cons :
      (s k : ℕ) (e : Entry) (es : List Entry) → hits s k (e ∷ es) ≤ hits s k es + single s k e
  unfolding hits single any
  hits-cons s zero e es = omega arith
  hits-cons s (suc k) e es = ground (arith, hits-cons s k e es)

  hits-nil : (s k : ℕ) → hits s k [] ≡ 0
  unfolding hits any
  hits-nil s zero = refl
  hits-nil s (suc k) = omega (arith, hits-nil s k)

  hits-le-length : (s k : ℕ) (es : List Entry) → hits s k es ≤ length es
  hits-le-length s k [] = omega (arith, hits-nil s k)
  hits-le-length s k (e ∷ es) =
      omega (arith, hits-cons s k e es, single-le-one s k e, hits-le-length s k es)

  hits-eq :
      (s k : ℕ) (es : List Entry)
      → ((i : ℕ) → i < k → any (at_path (f (s + i))) es ≡ true)
      → hits s k es ≡ k
  unfolding hits
  hits-eq s zero es taken = refl
  hits-eq s (suc k) es taken =
      rw (taken k (omega arith)) (omega (arith, hits-eq s k es (λ i h. taken i (omega arith))))

  -- The names that are all taken are no more than the files.
  taken-le-length :
      (s k : ℕ) (es : List Entry)
      → ((i : ℕ) → i < k → any (at_path (f (s + i))) es ≡ true)
      → k ≤ length es
  taken-le-length s k es taken = omega (arith, hits-eq s k es taken, hits-le-length s k es)

module _ (root : FilePath) (label : String) where
  candidate-injective : (m n : ℕ) → candidate root label m ≡ candidate root label n → m ≡ n
  unfolding candidate quarantined concat
  candidate-injective m n e =
      let rest = append_cancel_left root _ _ e in
      let name = head-eq_of_cons-eq (tail-eq_of_cons-eq rest) in
      let dotted = TextLemmas.append_cancel_left label _ _ name in
      let padded = TextLemmas.append_cancel_left "." _ _ dotted in
      zero_pad-injective 3 m n
        (TextLemmas.append_cancel_right (zero_pad 3 m) (zero_pad 3 n) "" padded)

  -- One round of a search that fails.
  first_free-fails :
      (fuel n : ℕ) (fs : Files)
      → first_free (suc fuel) n root label fs ≡ none
      → (exists (candidate root label n) fs ≡ true) × (first_free fuel (n + 1) root label fs ≡ none)
  unfolding first_free
  first_free-fails fuel n fs failed = elim (Bool-cases (exists (candidate root label n) fs)) [
    | inl taken ↦ (taken, rw taken at failed)
    | inr free ↦
        let found : ◌≡◌ {A = Option FilePath} (some (candidate root label n)) none =
          rw free at failed in
        absurd cc
  ]

  -- A search that fails has met a file at each name.
  first_free-eq-none :
      (fuel n : ℕ) (fs : Files)
      → first_free fuel n root label fs ≡ none
      → (i : ℕ) → i < fuel
      → exists (candidate root label (n + i)) fs ≡ true
  first_free-eq-none zero n fs failed i h = absurd (omega arith)
  first_free-eq-none (suc fuel) n fs failed zero h =
      let e : n + 0 ≡ n = omega arith in rw e (first_free-fails fuel n fs failed).0
  first_free-eq-none (suc fuel) n fs failed (suc i) h =
      let e : n + suc i ≡ (n + 1) + i = omega arith in
      rw e
        (first_free-eq-none fuel (n + 1) fs (first_free-fails fuel n fs failed).1 i (omega arith))

  first_free-is_free :
      (fuel n : ℕ) (fs : Files) {q : FilePath}
      → first_free fuel n root label fs ≡ some q
      → exists q fs ≡ false
  unfolding first_free
  first_free-is_free zero n fs found = cc
  first_free-is_free (suc fuel) n fs {q} found =
      elim (Bool-cases (exists (candidate root label n) fs)) [
        | inl taken ↦ first_free-is_free fuel (n + 1) fs {q = q} (rw taken at found)
        | inr free ↦
            let same : some (candidate root label n) ≡ some q = rw free at found in ground arith
      ]

  -- The search for a free name ends with one: of more names than there are files one is free.
  pub unique_quarantine_target-is_free :
      (fs : Files)
      → (q : FilePath) × (unique_quarantine_target root label fs ≡ some q) × (exists q fs ≡ false)
  unfolding unique_quarantine_target exists
  unique_quarantine_target-is_free fs = elim (Bool-cases (exists (quarantined root label) fs)) [
    | inr free ↦ (quarantined root label, rw free refl, free)
    | inl taken ↦ elim (Option-cases (first_free (suc (length fs.entries)) 1 root label fs)) [
      | inr (q, found) ↦
          (q, rw taken found, first_free-is_free (suc (length fs.entries)) 1 fs {q = q} found)
      | inl failed ↦ absurd (
          omega (
            arith,
            taken-le-length (candidate root label) candidate-injective 1 (suc (length fs.entries))
                fs.entries (first_free-eq-none (suc (length fs.entries)) 1 fs failed),
          ))
    ]
  ]
