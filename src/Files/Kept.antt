-- ===== src/Files/Kept.antt =====
-- What the calls leave in place.
use text.Mathlib.TextEquality.{eq_iff}
use mathlib.Core.List.{append-nil}
use ska_sdp_mini_control.Prelude.{
  ◌≡◌, refl, ◌∙◌, true, false, some, List, [], ◌∷◌, ◌++◌, arith, Bool-cases, inl, inr, any, map,
  select, ℕ,
}
use ska_sdp_mini_control.Prelude.Ensures.{Ensures, returned, bind_ok, bind_then, raise_if-then}
use ska_sdp_mini_control.Models.{FilePath}
use ska_sdp_mini_control.Files.{
  Files, Entry, dir, file, path_eq, strip, is_under, at_path, exists, is_dir, touch, prune, rebase,
  rename, mkdir_one, mkdir_below, mkdir_parents, parent,
}
use ska_sdp_mini_control.Files.Paths.{path_eq_iff}
use ska_sdp_mini_control.Files.Written.{any-set}
use ska_sdp_mini_control.Files.Writing.{put_file, write_file}
use ska_sdp_mini_control.Files.Removal.{exists-touch, is_under_self, moved, any-rebased}

abbrev pub Has : FilePath → Files → Type 0
Has p fs = exists p fs ≡ true

any-append :
    (p : FilePath) (es : List Entry) (e : Entry)
    → any (at_path p) es ≡ true
    → any (at_path p) (es ++ e ∷ []) ≡ true
unfolding any
any-append p [] e h = cc
any-append p (d ∷ es) e h = ground (arith, any-append p es e)

mkdir_one-Has :
    (q p : FilePath) (fs : Files) → Has p fs → Ensures (λ _ t. Has p t) (Has p) (mkdir_one q fs)
unfolding mkdir_one exists
mkdir_one-Has q p fs has = bind_ok _ _ fs refl (elim (Bool-cases (is_dir q fs)) [
  | inl there ↦ rw there (returned has)
  | inr absent ↦ rw absent (
      bind_ok _ _ fs refl (
        raise_if-then _ _ _ fs has λ allowed. returned (
          rw
            (exists-touch p (parent q)
              (record fs { entries = fs.entries ++ (q, dir fs.clock) ∷ [] }))
            (any-append p fs.entries (q, dir fs.clock) has))))
])

mkdir_below-Has :
    (above q p : FilePath) (fs : Files)
    → Has p fs
    → Ensures (λ _ t. Has p t) (Has p) (mkdir_below above q fs)
unfolding mkdir_below
mkdir_below-Has above [] p fs has = returned has
mkdir_below-Has above (a ∷ q) p fs has =
    bind_then (Has p) _ _ fs (mkdir_one-Has (above ++ a ∷ []) p fs has)
      λ t kept. mkdir_below-Has (above ++ a ∷ []) q p t kept

pub mkdir_parents-Has :
    (q p : FilePath) (fs : Files) → Has p fs → Ensures (λ _ t. Has p t) (Has p) (mkdir_parents q fs)
unfolding mkdir_parents
mkdir_parents-Has q p fs has = mkdir_below-Has [] q p fs has

any-new : (es : List Entry) (e : Entry) → any (at_path e.0) (es ++ e ∷ []) ≡ true
unfolding any
any-new [] e = ground (arith, path_eq_iff e.0 e.0)
any-new (d ∷ es) e = ground (arith, any-new es e)

put_file-Has : (q p : FilePath) (size : ℕ) (fs : Files) → Has p fs → Has p (put_file q size fs)
unfolding put_file exists
put_file-Has q p size fs has = elim (Bool-cases (exists q fs)) [
  | inl there ↦ rw there (any-set p q size fs.clock fs.entries ∙ has)
  | inr new ↦
      rw
        (
          new,
          exists-touch p (parent q)
              (record fs { entries = fs.entries ++ (q, file size fs.clock) ∷ [] }),
        )
        (any-append p fs.entries (q, file size fs.clock) has)
]

put_file-makes : (q : FilePath) (size : ℕ) (fs : Files) → Has q (put_file q size fs)
unfolding put_file exists
put_file-makes q size fs = elim (Bool-cases (exists q fs)) [
  | inl there ↦ rw there (any-set q q size fs.clock fs.entries ∙ there)
  | inr new ↦
      rw
        (
          new,
          exists-touch q (parent q)
              (record fs { entries = fs.entries ++ (q, file size fs.clock) ∷ [] }),
        )
        (any-new fs.entries (q, file size fs.clock))
]

-- An entry that lies neither below the old nor below the new name stays.
any-moved :
    (src dst p : FilePath) (es : List Entry)
    → is_under src p ≡ false
    → is_under dst p ≡ false
    → any (at_path p) es ≡ true
    → any (at_path p) (map (rebase src dst) (prune dst es)) ≡ true
unfolding any prune select
any-moved src dst p [] a b h = cc
any-moved src dst p (e ∷ es) a b h = elim (Bool-cases (path_eq e.0 p)) [
  | inl at ↦ let same : e.0 ≡ p = (path_eq_iff e.0 p).0 at in ground (arith, same, path_eq_iff p p)
  | inr other ↦ ground (arith, any-moved src dst p es a b)
]

strip_self : (p : FilePath) → strip p p ≡ some []
unfolding strip
strip_self [] = refl
strip_self (a ∷ p) = ground (arith, eq_iff a a, strip_self p)

-- The entry at the old name lands on the new one.
any-landed :
    (src dst : FilePath) (es : List Entry)
    → is_under dst src ≡ false
    → any (at_path src) es ≡ true
    → any (at_path dst) (map (rebase src dst) (prune dst es)) ≡ true
unfolding any prune select
any-landed src dst [] apart h = cc
any-landed src dst (e ∷ es) apart h = elim (Bool-cases (path_eq e.0 src)) [
  | inl at ↦
      let same : e.0 ≡ src = (path_eq_iff e.0 src).0 at in
      let here : strip src e.0 ≡ some [] = rw same (strip_self src) in
      ground (arith, same, here, append-nil dst, path_eq_iff dst dst)
  | inr other ↦ ground (arith, any-landed src dst es apart)
]

-- A rename that goes through leaves what it does not touch, and puts the old name's data at the
-- new name; one that raises leaves everything.
pub rename-Has :
    (src dst p : FilePath) (fs : Files)
    → is_under dst src ≡ false
    → is_under src p ≡ false
    → is_under dst p ≡ false
    → Has p fs
    → Ensures (λ _ t. Has p t × (exists src t ≡ false) × Has dst t) (Has p) (rename src dst fs)
unfolding rename exists
rename-Has src dst p fs apart old new has = bind_ok _ _ fs refl (
    raise_if-then _ _ _ fs has λ allowed. bind_ok _ _ fs refl (
      raise_if-then _ _ _ fs has λ found. elim (Bool-cases (path_eq src dst)) [
        | inl same ↦ absurd (ground (arith, path_eq_iff src dst, is_under_self src))
        | inr other ↦ rw other (
            bind_ok _ _ fs refl (
              raise_if-then _ _ _ fs has λ free. returned (
                rw (touched p) (any-moved src dst p fs.entries old new has),
                rw (touched src) (any-rebased src dst (prune dst fs.entries) apart),
                rw (touched dst) (any-landed src dst fs.entries apart (ground arith)),
              )))
      ]))
  where
    touched :
        (q : FilePath)
        → exists q (touch (parent dst) (touch (parent src) (moved src dst fs)))
          ≡ exists q (moved src dst fs)
    touched q =
        exists-touch q (parent dst) (touch (parent src) (moved src dst fs))
        ∙ exists-touch q (parent src) (moved src dst fs)

pub write_file-makes :
    (q : FilePath) (size : ℕ) (fs : Files)
    → Ensures (λ _ t. Has q t) (λ _. Unit {0}) (write_file q size fs)
unfolding write_file
write_file-makes q size fs = bind_ok _ _ fs refl (
    raise_if-then _ _ _ fs tt λ allowed.
      bind_ok _ _ fs refl (raise_if-then _ _ _ fs tt λ room. returned (put_file-makes q size fs)))

pub write_file-Has :
    (q p : FilePath) (size : ℕ) (fs : Files)
    → Has p fs
    → Ensures (λ _ t. Has p t) (λ _. Unit {0}) (write_file q size fs)
unfolding write_file
write_file-Has q p size fs has = bind_ok _ _ fs refl (
    raise_if-then _ _ _ fs tt λ allowed.
      bind_ok _ _ fs refl
        (raise_if-then _ _ _ fs tt λ room. returned (put_file-Has q p size fs has)))
