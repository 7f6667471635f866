-- ===== src/Files/Removal.antt =====
-- What is left at a path after the calls that take it away.
use text.Mathlib.TextEquality.{eq_iff}
use ska_sdp_mini_control.Prelude.{
  ℕ, ◌≡◌, refl, true, false, not, List, [], ◌∷◌, ◌++◌, arith, Bool-cases, Option-cases, inl, inr,
  any, select, map, update, ◌&&◌,
}
use ska_sdp_mini_control.Prelude.Ensures.{
  Ensures, returned, bind_ok, raise_if-then, then_ok, raised,
}
use ska_sdp_mini_control.Models.{FilePath}
use ska_sdp_mini_control.Files.{
  Files, Entry, path_eq, strip, is_under, at_path, exists, touch, prune, rebase, rename, rmtree,
  is_refused_below, unlink, set_mtime, file, dir, parent,
}
use ska_sdp_mini_control.Files.Paths.{path_eq_iff, strip-append}

pub is_under_self : (p : FilePath) → is_under p p ≡ true
unfolding strip
is_under_self [] = refl
is_under_self (a ∷ p) = ground (arith, eq_iff a a, is_under_self p)

any-touched :
    (q p : FilePath) (t : ℕ) (es : List Entry)
    → any (at_path q) (update (at_path p) (set_mtime t) es) ≡ any (at_path q) es
unfolding any update
any-touched q p t [] = refl
any-touched q p t ((r, file size mtime) ∷ es) = ground (arith, any-touched q p t es)
any-touched q p t ((r, dir mtime) ∷ es) = ground (arith, any-touched q p t es)

pub exists-touch : (q p : FilePath) (fs : Files) → exists q (touch p fs) ≡ exists q fs
unfolding exists touch
exists-touch q p fs = any-touched q p fs.clock fs.entries

pub any-prune :
    (q p : FilePath) (es : List Entry)
    → any (at_path q) (prune p es) ≡ any (at_path q) es && not (is_under p q)
unfolding any prune select
any-prune q p [] = refl
any-prune q p (e ∷ es) = elim (Bool-cases (path_eq e.0 q)) [
  | inl at ↦ let same : e.0 ≡ q = (path_eq_iff e.0 q).0 at in ground (arith, same, any-prune q p es)
  | inr other ↦ ground (arith, any-prune q p es)
]

-- An entry that a rename moves does not land on the old name.
rebased_away :
    (src dst : FilePath) (e : Entry)
    → is_under dst src ≡ false
    → at_path src (rebase src dst e) ≡ false
rebased_away src dst e apart = elim (Option-cases (strip src e.0)) [
  | inl gone ↦ ground (arith, path_eq_iff e.0 src, is_under_self src)
  | inr (rest, found) ↦ ground (arith, found, path_eq_iff (dst ++ rest) src, strip-append dst rest)
]

pub any-rebased :
    (src dst : FilePath) (es : List Entry)
    → is_under dst src ≡ false
    → any (at_path src) (map (rebase src dst) es) ≡ false
unfolding any
any-rebased src dst [] apart = refl
any-rebased src dst (e ∷ es) apart =
    ground (arith, rebased_away src dst e apart, any-rebased src dst es apart)

abbrev pub moved : FilePath → FilePath → Files → Files
moved src dst fs = record fs { entries = map (rebase src dst) (prune dst fs.entries) }

abbrev pruned : FilePath → Files → Files
pruned p fs = record fs { entries = prune p fs.entries }

abbrev pub Anything : Files → Type 0
Anything fs = Unit

-- After a rename nothing stands at the old name, unless that lies below the new one.
pub rename-clears :
    (src dst : FilePath) (fs : Files)
    → is_under dst src ≡ false
    → Ensures (λ _ t. exists src t ≡ false) Anything (rename src dst fs)
unfolding rename exists any
rename-clears src dst fs apart = bind_ok _ _ fs refl (
    raise_if-then _ _ _ fs tt λ allowed. bind_ok _ _ fs refl (
      raise_if-then _ _ _ fs tt λ found. elim (Bool-cases (path_eq src dst)) [
        | inl same ↦ absurd (ground (arith, path_eq_iff src dst, is_under_self src))
        | inr other ↦ rw other (
            bind_ok _ _ fs refl (
              raise_if-then _ _ _ fs tt λ free. returned (
                rw
                  (
                    exists-touch src (parent dst) (touch (parent src) (moved src dst fs)),
                    exists-touch src (parent src) (moved src dst fs),
                  )
                  (any-rebased src dst (prune dst fs.entries) apart))))
      ]))

abbrev pub Cleared : FilePath → Files → Files → Type 0
Cleared p fs t = (exists p t ≡ false) × ((q : FilePath) → exists q fs ≡ false → exists q t ≡ false)

pruned-Cleared : (p : FilePath) (fs : Files) → Cleared p fs (touch (parent p) (pruned p fs))
unfolding exists
pruned-Cleared p fs = (
  ground
      (arith, exists-touch p (parent p) (pruned p fs), any-prune p p fs.entries, is_under_self p),
  λ q away. ground (arith, exists-touch q (parent p) (pruned p fs), any-prune q p fs.entries),
)

pub rmtree-Cleared :
    (p : FilePath) (fs : Files) → Ensures (λ _ t. Cleared p fs t) Anything (rmtree p fs)
unfolding rmtree
rmtree-Cleared p fs = bind_ok _ _ fs refl (
    raise_if-then _ _ _ fs tt λ allowed. bind_ok _ _ fs refl (
      raise_if-then _ _ _ fs tt λ found.
        bind_ok _ _ fs refl (elim (Bool-cases (is_refused_below p fs)) [
          | inl stuck ↦ rw stuck (then_ok _ _ fs refl (raised tt))
          | inr free ↦ rw free (returned (pruned-Cleared p fs))
        ])))

pub unlink-Cleared :
    (p : FilePath) (fs : Files) → Ensures (λ _ t. Cleared p fs t) Anything (unlink p fs)
unfolding unlink
unlink-Cleared p fs = bind_ok _ _ fs refl (
    raise_if-then _ _ _ fs tt λ allowed.
      bind_ok _ _ fs refl (raise_if-then _ _ _ fs tt λ found. returned (pruned-Cleared p fs)))
