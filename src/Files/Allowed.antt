-- ===== src/Files/Allowed.antt =====
-- Calls that the operating system does not refuse.
use mathlib.Core.List.{append_assoc}
use ska_sdp_mini_control.Prelude.{
  ◌≡◌, refl, sym, subst, ap, true, false, List, [], ◌∷◌, ◌++◌, arith, Bool-cases, inl, inr, any, ok,
  ◌>>=◌, ◌>>◌, ◌&&◌,
}
use ska_sdp_mini_control.Prelude.Ensures.{Ensures, returned, bind_ok, raise_if_passes}
use ska_sdp_mini_control.Models.{FilePath}
use ska_sdp_mini_control.Files.{
  Files, Entry, path_eq, is_under, at_path, is_dir_node, exists, touch, rename, rmtree, unlink,
  is_refused_below, is_dir, parent, is_blocked, mkdir_one, mkdir_parents, mkdir_below,
}
use ska_sdp_mini_control.Files.Paths.{path_eq_iff, strip-append}

-- No call raises, and the next calls are allowed too.
abbrev pub Never : Files → Type 0
Never fs = ⊥

abbrev pub Allows : Files → Type 0
Allows fs = (p : FilePath) → fs.refuses p ≡ false

nothing_refused : (p : FilePath) (fs : Files) → Allows fs → is_refused_below p fs ≡ false
unfolding any
nothing_refused p fs free = go fs.entries
  where
    go : (es : List Entry) → any (λ e. is_under p e.0 && fs.refuses e.0) es ≡ false
    go [] = refl
    go (e ∷ es) = ground (arith, free e.0, go es)

pub rmtree-Allows :
    (p : FilePath) (fs : Files)
    → Allows fs
    → is_dir p fs ≡ true
    → Ensures (λ _ t. Allows t) Never (rmtree p fs)
unfolding rmtree touch
rmtree-Allows p fs free tree = bind_ok _ _ fs refl (
    raise_if_passes _ _ _ fs (free p) (
      bind_ok _ _ fs refl (
        raise_if_passes _ _ _ fs (rw tree refl)
          (bind_ok _ _ fs refl (rw (nothing_refused p fs free) (returned free))))))

pub unlink-Allows :
    (p : FilePath) (fs : Files)
    → Allows fs
    → is_dir p fs ≡ false
    → exists p fs ≡ true
    → Ensures (λ _ t. Allows t) Never (unlink p fs)
unfolding unlink touch
unlink-Allows p fs free single there = bind_ok _ _ fs refl (
    raise_if_passes _ _ _ fs (rw (free p, single) refl)
      (bind_ok _ _ fs refl (raise_if_passes _ _ _ fs (rw there refl) (returned free))))

pub dir_exists : (p : FilePath) (fs : Files) → exists p fs ≡ false → is_dir p fs ≡ false
unfolding exists is_dir any
dir_exists p fs away = go fs.entries away
  where
    go :
        (es : List Entry)
        → any (at_path p) es ≡ false
        → any (λ e. at_path p e && is_dir_node e.1) es ≡ false
    go [] h = refl
    go (e ∷ es) h = ground (arith, go es)

differ :
    (p q : FilePath) (fs : Files) → exists p fs ≡ true → exists q fs ≡ false → path_eq p q ≡ false
differ p q fs live away = elim (Bool-cases (path_eq p q)) [
  | inl same ↦
      let e : p ≡ q = (path_eq_iff p q).0 same in absurd (ground (arith, ap (λ r. exists r fs) e))
  | inr other ↦ other
]

pub rename-Allows :
    (src dst : FilePath) (fs : Files)
    → Allows fs
    → exists src fs ≡ true
    → exists dst fs ≡ false
    → is_dir (parent dst) fs ≡ true
    → is_under src dst ≡ false
    → Ensures (λ _ t. Allows t) Never (rename src dst fs)
unfolding rename touch is_blocked
rename-Allows src dst fs free live away room apart = bind_ok _ _ fs refl (
    raise_if_passes _ _ _ fs (rw (free src, free dst) refl) (
      bind_ok _ _ fs refl (
        raise_if_passes _ _ _ fs (rw (live, room) refl) (
          rw (differ src dst fs live away) (
            bind_ok _ _ fs refl (
              raise_if_passes _ _ _ fs (rw (apart, dir_exists dst fs away, away) refl)
                (returned free)))))))

-- Every directory on the way to a path is there.
abbrev pub Reachable : FilePath → Files → Type 0
Reachable p fs = (q : FilePath) → is_under q p ≡ true → is_dir q fs ≡ true

mkdir_below_lem :
    (above p : FilePath) (fs : Files)
    → Reachable (above ++ p) fs
    → mkdir_below above p fs ≡ (ok tt, fs)
unfolding mkdir_below mkdir_one ◌>>=◌ ◌>>◌
mkdir_below_lem above [] fs there = refl
mkdir_below_lem above (a ∷ p) fs there =
    let split : above ++ a ∷ p ≡ (above ++ a ∷ []) ++ p = sym (append_assoc above (a ∷ []) p) in
    let here : is_dir (above ++ a ∷ []) fs ≡ true =
      there (above ++ a ∷ []) (rw (split, strip-append (above ++ a ∷ []) p) refl) in
    rw here (mkdir_below_lem (above ++ a ∷ []) p fs (subst (λ r. Reachable r fs) split there))

pub mkdir_parents_lem :
    (p : FilePath) (fs : Files) → Reachable p fs → mkdir_parents p fs ≡ (ok tt, fs)
unfolding mkdir_parents
mkdir_parents_lem p fs there = mkdir_below_lem [] p fs there
