-- ===== src/Files/Paths.antt =====
-- Equality and prefixes of paths.
use text.Mathlib.TextEquality.{eq_iff}
use text.Mathlib.Text.{◌==◌ as str_eq}
use ska_sdp_mini_control.Prelude.{
  ◌≡◌, ◌↔◌, refl, true, some, [], ◌∷◌, ◌++◌, arith, Bool-cases, inl, inr,
}
use ska_sdp_mini_control.Models.{FilePath}
use ska_sdp_mini_control.Files.{path_eq, strip}

pub path_eq_iff : (p q : FilePath) → (path_eq p q ≡ true) ↔ (p ≡ q)
unfolding path_eq
path_eq_iff [] [] = (λ h. refl, λ h. refl)
path_eq_iff [] (b ∷ q) = (λ h. cc, λ h. cc)
path_eq_iff (a ∷ p) [] = (λ h. cc, λ h. cc)
path_eq_iff (a ∷ p) (b ∷ q) = (
  λ h. ground (arith, eq_iff a b, path_eq_iff p q),
  λ h. ground (arith, eq_iff a b, path_eq_iff p q),
)

-- A path lies under each of its beginnings.
pub strip-append : (p q : FilePath) → strip p (p ++ q) ≡ some q
unfolding strip
strip-append [] q = refl
strip-append (a ∷ p) q = ground (arith, eq_iff a a, strip-append p q)

pub strip_split : (p q : FilePath) {r : FilePath} → strip p q ≡ some r → q ≡ p ++ r
unfolding strip
strip_split [] q h = ground arith
strip_split (a ∷ p) [] h = cc
strip_split (a ∷ p) (b ∷ q) {r} h = elim (Bool-cases (str_eq a b)) [
  | inl same ↦ ground (arith, eq_iff a b, strip_split p q {r = r})
  | inr other ↦ absurd (ground arith)
]
