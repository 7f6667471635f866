-- ===== src/Files.antt =====
-- What the source uses of pathlib, shutil and os: a tree of files as the list of its paths. Paths
-- are absolute and have no links, so `resolve` does nothing. The operating system may refuse to
-- change some paths; a refused call changes nothing, but for the removal of a tree, which is refused
-- at a path below and has then removed files before it, in the order of the list.
pub mod Paths
pub mod Allowed
pub mod Removal
pub mod Kept
pub mod Writing
pub mod Written
use mathlib.Core.Option
use text.Mathlib.Text.{◌==◌ as str_eq}
use ska_sdp_mini_control.Prelude.{
  ℕ, suc, ◌+◌, String, Bool, true, false, not, ◌&&◌, ◌||◌, Option, none, some, List, [], ◌∷◌, ◌++◌,
  map, Action, ok, raise, raise_if, gets, modify, skip, ◌>>=◌, ◌>>◌, os_error, file_not_found, any,
  find, select, update, if◌then◌else◌,
}
use ska_sdp_mini_control.Prelude.Format.{concat}
use ska_sdp_mini_control.Models.{FilePath}

-- A file has its size (st_size); both have the time of their last change (st_mtime_ns).
pub data Node : Type 0 where
  file : (size mtime : ℕ) → Node
  dir : (mtime : ℕ) → Node

abbrev pub Entry : Type 0
Entry = FilePath × Node

pub record Files : Type 0 where
  pub entries : List Entry
  pub clock : ℕ
  pub refuses : FilePath → Bool

unfoldable pub path_eq : FilePath → FilePath → Bool
path_eq [] [] = true
path_eq (a ∷ p) (b ∷ q) = str_eq a b && path_eq p q
path_eq _ _ = false

-- What is left of the second path behind the first.
unfoldable pub strip : FilePath → FilePath → Option FilePath
strip [] q = some q
strip (a ∷ p) [] = none
strip (a ∷ p) (b ∷ q) = if str_eq a b then strip p q else none

abbrev is_some {ℓ} : {A : Type ℓ} → Option A → Bool
is_some none = false
is_some (some a) = true

-- The path is the root of the tree, or lies in it.
abbrev pub is_under : FilePath → FilePath → Bool
is_under root p = is_some (strip root p)

-- Path.parent
unfoldable pub parent : FilePath → FilePath
parent [] = []
parent (a ∷ []) = []
parent (a ∷ b ∷ p) = a ∷ parent (b ∷ p)

-- str(path), in messages
unfoldable pub path_text : FilePath → String
path_text [] = ""
path_text (a ∷ p) = concat ("/" ∷ a ∷ path_text p ∷ [])

abbrev pub at_path : FilePath → Entry → Bool
at_path p e = path_eq e.0 p

-- Path.exists
unfoldable pub exists : FilePath → Files → Bool
exists p fs = any (at_path p) fs.entries

abbrev pub is_dir_node : Node → Bool
is_dir_node (file _ _) = false
is_dir_node (dir _) = true

-- Path.is_dir
unfoldable pub is_dir : FilePath → Files → Bool
is_dir p fs = any (λ e. at_path p e && is_dir_node e.1) fs.entries

abbrev pub mtime_of : Node → ℕ
mtime_of (file _ mtime) = mtime
mtime_of (dir mtime) = mtime

-- `path.stat().st_mtime_ns if path.exists() else -1`
unfoldable pub mtime : FilePath → Files → Option ℕ
mtime p fs = Option.map (λ (e : Entry). mtime_of e.1) (find (at_path p) fs.entries)

abbrev pub set_mtime : ℕ → Entry → Entry
set_mtime t (p, file size mtime) = (p, file size mtime)
set_mtime t (p, dir _) = (p, dir t)

-- A change in a directory sets its time.
unfoldable pub touch : FilePath → Files → Files
touch p fs = record fs {
  entries = update (at_path p) (set_mtime fs.clock) fs.entries;
  clock = suc fs.clock;
}

-- The entries without the tree at a path.
unfoldable pub prune : FilePath → List Entry → List Entry
prune root entries = select (λ e. not (is_under root e.0)) entries

abbrev moved_to : FilePath → Entry → Option FilePath → Entry
moved_to dst e none = e
moved_to dst e (some rest) = (dst ++ rest, e.1)

-- The entry after the tree at `src` is called `dst`.
abbrev pub rebase : FilePath → FilePath → Entry → Entry
rebase src dst e = moved_to dst e (strip src e.0)

abbrev pub is_refused_below : FilePath → Files → Bool
is_refused_below p fs = any (λ e. is_under p e.0 && fs.refuses e.0) fs.entries

-- What a removal of the tree at `p` has left when it stops at the first path that is refused: the
-- files before it are gone, its directories are still there.
unfoldable pub left_over : FilePath → (FilePath → Bool) → List Entry → List Entry
left_over p refuses [] = []
left_over p refuses ((q, node) ∷ es) =
    let rest = left_over p refuses es in
    if is_under p q && refuses q
    then (q, node) ∷ es
    else if is_under p q && not (is_dir_node node)
    then rest
    else (q, node) ∷ rest

-- shutil.rmtree; where a path below is refused, it raises when a part of the tree is gone.
unfoldable pub rmtree : FilePath → Action Files Unit
rmtree p = do
  refused ← gets (λ fs. fs.refuses p)
  raise_if refused (os_error (path_text p))
  found ← gets (is_dir p)
  raise_if (not found) (file_not_found (path_text p))
  stuck ← gets (is_refused_below p)
  if stuck
      then (do
        modify (λ fs. record fs { entries = left_over p fs.refuses fs.entries })
        raise (os_error (path_text p)))
      else modify (λ fs. touch (parent p) (record fs { entries = prune p fs.entries }))

-- Path.unlink
unfoldable pub unlink : FilePath → Action Files Unit
unlink p = do
  refused ← gets (λ fs. fs.refuses p || is_dir p fs)
  raise_if refused (os_error (path_text p))
  found ← gets (exists p)
  raise_if (not found) (file_not_found (path_text p))
  modify (λ fs. touch (parent p) (record fs { entries = prune p fs.entries }))

-- Something stands at the new name that rename(2) does not replace: anything but a file under a
-- file, or an empty directory under a directory.
unfoldable pub is_blocked : FilePath → FilePath → Files → Bool
is_blocked src dst fs =
    if is_dir dst fs
    then not (is_dir src fs) || any (λ e. is_under dst e.0 && not (path_eq e.0 dst)) fs.entries
    else exists dst fs && is_dir src fs

-- Path.rename
unfoldable pub rename : FilePath → FilePath → Action Files Unit
rename src dst = do
  refused ← gets (λ fs. fs.refuses src || fs.refuses dst)
  raise_if refused (os_error (path_text src))
  found ← gets (λ fs. exists src fs && is_dir (parent dst) fs)
  raise_if (not found) (file_not_found (path_text src))
  if path_eq src dst then skip else do
    blocked ← gets (λ fs. is_under src dst || is_blocked src dst fs)
    raise_if blocked (os_error (path_text dst))
    modify (λ fs.
        touch (parent dst) (
          touch (parent src) (record fs { entries = map (rebase src dst) (prune dst fs.entries) })))

-- One level of Path.mkdir(parents=True, exist_ok=True).
unfoldable pub mkdir_one : FilePath → Action Files Unit
mkdir_one p = do
  there ← gets (is_dir p)
  if there then skip else do
    refused ← gets (λ fs. fs.refuses p || exists p fs)
    raise_if refused (os_error (path_text p))
    modify (λ fs. touch (parent p) (record fs { entries = fs.entries ++ (p, dir fs.clock) ∷ [] }))

unfoldable pub mkdir_below : FilePath → FilePath → Action Files Unit
mkdir_below above [] = skip
mkdir_below above (a ∷ p) = do mkdir_one (above ++ a ∷ []); mkdir_below (above ++ a ∷ []) p

-- Path.mkdir(parents=True, exist_ok=True)
unfoldable pub mkdir_parents : FilePath → Action Files Unit
unfolding mkdir_below mkdir_one
mkdir_parents p = mkdir_below [] p
