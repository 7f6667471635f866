-- ===== src/Files/Written.antt =====
-- What the writing of files and the making of a directory leave, where nothing is refused.
use mathlib.Core.List.{append_assoc, append-nil}
use text.Mathlib.TextEquality.{eq_iff}
use ska_sdp_mini_control.Prelude.{
  ℕ, ◌≡◌, refl, sym, subst, ap, ◌∙◌, true, false, String, List, [], ◌∷◌, ◌++◌, arith, Bool,
  Bool-cases, inl, inr, any, update, ok, ◌>>=◌, ◌>>◌, ◌&&◌, ◌||◌,
}
use ska_sdp_mini_control.Models.{FilePath}
use ska_sdp_mini_control.Files.{
  Files, Entry, file, dir, path_eq, strip, is_under, at_path, is_dir_node, exists, is_dir, touch,
  parent, set_mtime, mkdir_one, mkdir_parents, mkdir_below,
}
use ska_sdp_mini_control.Files.Paths.{path_eq_iff, strip-append}
use ska_sdp_mini_control.Files.Removal.{exists-touch}
use ska_sdp_mini_control.Files.Allowed.{Allows, Reachable}
use ska_sdp_mini_control.Files.Writing.{put_file, write_file, set_node}

pub parent-append_one : (p : FilePath) (a : String) → parent (p ++ a ∷ []) ≡ p
unfolding parent
parent-append_one [] a = refl
parent-append_one (b ∷ []) a = refl
parent-append_one (b ∷ c ∷ p) a = ap (λ q. b ∷ q) (parent-append_one (c ∷ p) a)

-- What lies under a path with its directory lies under it itself.
pub is_under-parent : (p q : FilePath) → is_under p (parent q) ≡ true → is_under p q ≡ true
unfolding strip parent
is_under-parent [] q h = refl
is_under-parent (a ∷ p) [] h = cc
is_under-parent (a ∷ p) (b ∷ []) h = cc
is_under-parent (a ∷ p) (b ∷ c ∷ q) h = ground (arith, is_under-parent p (c ∷ q))

any_dir-touched :
    (q p : FilePath) (t : ℕ) (es : List Entry)
    → any (λ e. at_path q e && is_dir_node e.1) (update (at_path p) (set_mtime t) es)
      ≡ any (λ e. at_path q e && is_dir_node e.1) es
unfolding any update
any_dir-touched q p t [] = refl
any_dir-touched q p t ((r, file size mtime) ∷ es) = ground (arith, any_dir-touched q p t es)
any_dir-touched q p t ((r, dir mtime) ∷ es) = ground (arith, any_dir-touched q p t es)

pub is_dir-touch : (q p : FilePath) (fs : Files) → is_dir q (touch p fs) ≡ is_dir q fs
unfolding is_dir touch
is_dir-touch q p fs = any_dir-touched q p fs.clock fs.entries

any-append_one :
    (p : Entry → Bool) (es : List Entry) (e : Entry) → any p (es ++ e ∷ []) ≡ any p es || p e
unfolding any
any-append_one p [] e = ground arith
any-append_one p (d ∷ es) e = ground (arith, any-append_one p es e)

any_dir-set :
    (q p : FilePath) (size t : ℕ) (es : List Entry)
    → path_eq p q ≡ false
    → any (λ e. at_path q e && is_dir_node e.1) (update (at_path p) (set_node (file size t)) es)
      ≡ any (λ e. at_path q e && is_dir_node e.1) es
unfolding any update
any_dir-set q p size t [] other = refl
any_dir-set q p size t (e ∷ es) other = elim (Bool-cases (path_eq e.0 p)) [
  | inl at ↦
      let same : e.0 ≡ p = (path_eq_iff e.0 p).0 at in
      ground (arith, same, other, any_dir-set q p size t es)
  | inr away ↦ ground (arith, any_dir-set q p size t es)
]

pub any-set :
    (q p : FilePath) (size t : ℕ) (es : List Entry)
    → any (at_path q) (update (at_path p) (set_node (file size t)) es) ≡ any (at_path q) es
unfolding any update
any-set q p size t [] = refl
any-set q p size t (e ∷ es) = ground (arith, any-set q p size t es)

pub is_dir-put_file :
    (q p : FilePath) (size : ℕ) (fs : Files)
    → path_eq p q ≡ false
    → is_dir q (put_file p size fs) ≡ is_dir q fs
unfolding put_file is_dir touch
is_dir-put_file q p size fs other = elim (Bool-cases (exists p fs)) [
  | inl there ↦ rw there (any_dir-set q p size fs.clock fs.entries other)
  | inr new ↦
      rw
        (
          new,
          any_dir-touched q (parent p) fs.clock (fs.entries ++ (p, file size fs.clock) ∷ []),
          any-append_one (λ e. at_path q e && is_dir_node e.1) fs.entries (p, file size fs.clock),
        )
        (ground arith)
]

pub exists-put_file :
    (q p : FilePath) (size : ℕ) (fs : Files)
    → path_eq p q ≡ false
    → exists q (put_file p size fs) ≡ exists q fs
unfolding put_file exists
exists-put_file q p size fs other = elim (Bool-cases (exists p fs)) [
  | inl there ↦ rw there (any-set q p size fs.clock fs.entries)
  | inr new ↦
      rw
        (
          new,
          exists-touch q (parent p)
              (record fs { entries = fs.entries ++ (p, file size fs.clock) ∷ [] }),
          any-append_one (at_path q) fs.entries (p, file size fs.clock),
        )
        (ground arith)
]

pub write_file_lem :
    (p : FilePath) (size : ℕ) (fs : Files)
    → Allows fs
    → is_dir p fs ≡ false
    → is_dir (parent p) fs ≡ true
    → write_file p size fs ≡ (ok tt, put_file p size fs)
unfolding write_file ◌>>=◌ ◌>>◌
write_file_lem p size fs free single room = rw (free p, single, room) refl

-- The state after the making of one directory.
abbrev pub made : FilePath → Files → Files
made p fs = touch (parent p) (record fs { entries = fs.entries ++ (p, dir fs.clock) ∷ [] })

pub mkdir_one_lem :
    (p : FilePath) (fs : Files)
    → Allows fs
    → exists p fs ≡ false
    → is_dir p fs ≡ false
    → mkdir_one p fs ≡ (ok tt, made p fs)
unfolding mkdir_one ◌>>=◌ ◌>>◌
mkdir_one_lem p fs free absent no_dir = rw (no_dir, free p, absent) refl

mkdir_below-append_one :
    (above p : FilePath) (a : String) (fs : Files) {t : Files}
    → Reachable (above ++ p) fs
    → mkdir_one ((above ++ p) ++ a ∷ []) fs ≡ (ok tt, t)
    → mkdir_below above (p ++ a ∷ []) fs ≡ (ok tt, t)
unfolding mkdir_below mkdir_one ◌>>=◌ ◌>>◌
mkdir_below-append_one above [] a fs there last = rw (rw (append-nil above) at last) refl
mkdir_below-append_one above (b ∷ p) a fs there last =
    let split : above ++ b ∷ p ≡ (above ++ b ∷ []) ++ p = sym (append_assoc above (b ∷ []) p) in
    let here : is_dir (above ++ b ∷ []) fs ≡ true =
      there (above ++ b ∷ []) (rw (split, strip-append (above ++ b ∷ []) p) refl) in
    rw here (
      mkdir_below-append_one (above ++ b ∷ []) p a fs (subst (λ r. Reachable r fs) split there)
        (rw (← split) last))

pub mkdir_parents-append_one :
    (p : FilePath) (a : String) (fs : Files) {t : Files}
    → Reachable p fs
    → mkdir_one (p ++ a ∷ []) fs ≡ (ok tt, t)
    → mkdir_parents (p ++ a ∷ []) fs ≡ (ok tt, t)
unfolding mkdir_parents
mkdir_parents-append_one p a fs there last = mkdir_below-append_one [] p a fs there last

pub exists-made : (q p : FilePath) (fs : Files) → exists q (made p fs) ≡ exists q fs || path_eq p q
unfolding exists
exists-made q p fs =
    exists-touch q (parent p) (record fs { entries = fs.entries ++ (p, dir fs.clock) ∷ [] })
    ∙ any-append_one (at_path q) fs.entries (p, dir fs.clock)

pub is_dir-made : (q p : FilePath) (fs : Files) → is_dir q (made p fs) ≡ is_dir q fs || path_eq p q
unfolding is_dir
is_dir-made q p fs =
    is_dir-touch q (parent p) (record fs { entries = fs.entries ++ (p, dir fs.clock) ∷ [] })
    ∙ any-append_one (λ e. at_path q e && is_dir_node e.1) fs.entries (p, dir fs.clock)
    ∙ ground arith

pub Allows-put_file :
    (p : FilePath) (size : ℕ) (fs : Files) → Allows fs → Allows (put_file p size fs)
unfolding put_file touch
Allows-put_file p size fs free = elim (Bool-cases (exists p fs)) [
  | inl there ↦ rw there free
  | inr new ↦ rw new free
]

pub Allows-made : (p : FilePath) (fs : Files) → Allows fs → Allows (made p fs)
unfolding touch
Allows-made p fs free = free

pub path_eq-false : (p q : FilePath) → (p ≡ q → ⊥) → path_eq p q ≡ false
path_eq-false p q other = ground (arith, path_eq_iff p q, other)

pub path_eq_sym : (p q : FilePath) → path_eq p q ≡ path_eq q p
path_eq_sym p q = ground (arith, path_eq_iff p q, path_eq_iff q p)

-- Two names in one directory
pub path_eq-append : (p q r : FilePath) → path_eq (p ++ q) (p ++ r) ≡ path_eq q r
unfolding path_eq
path_eq-append [] q r = refl
path_eq-append (a ∷ p) q r = ground (arith, eq_iff a a, path_eq-append p q r)

any-below :
    (p q : FilePath) (es : List Entry)
    → is_under p q ≡ true
    → any (λ e. is_under p e.0) es ≡ false
    → any (at_path q) es ≡ false
unfolding any
any-below p q [] below h = refl
any-below p q (e ∷ es) below h = elim (Bool-cases (path_eq e.0 q)) [
  | inl at ↦ let same : e.0 ≡ q = (path_eq_iff e.0 q).0 at in absurd (ground (arith, same))
  | inr away ↦ ground (arith, any-below p q es)
]

-- Where nothing stands below a path.
pub exists-below :
    (p q : FilePath) (fs : Files)
    → any (λ e. is_under p e.0) fs.entries ≡ false
    → is_under p q ≡ true
    → exists q fs ≡ false
unfolding exists
exists-below p q fs nothing below = any-below p q fs.entries below nothing
