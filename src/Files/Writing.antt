-- ===== src/Files/Writing.antt =====
-- What the source uses of `open`, `write_text` and `write_bytes`: a file gets its new size. What
-- stands in the file is not looked at.
use ska_sdp_mini_control.Prelude.{
  ℕ, ◌||◌, not, [], ◌∷◌, ◌++◌, Action, gets, modify, raise_if, ◌>>=◌, ◌>>◌, os_error,
  file_not_found, update, if◌then◌else◌,
}
use ska_sdp_mini_control.Models.{FilePath}
use ska_sdp_mini_control.Files.{
  Files, Entry, Node, file, at_path, exists, is_dir, touch, parent, path_text,
}

abbrev pub set_node : Node → Entry → Entry
set_node n (p, _) = (p, n)

-- The file is there with a size; a new one changes its directory too.
unfoldable pub put_file : FilePath → ℕ → Files → Files
put_file p size fs =
    if exists p fs
    then record fs { entries = update (at_path p) (set_node (file size fs.clock)) fs.entries }
    else touch (parent p) (record fs { entries = fs.entries ++ (p, file size fs.clock) ∷ [] })

-- `with open(p, "wb") as fh:` and the writing of `size` bytes
unfoldable pub write_file : FilePath → ℕ → Action Files Unit
write_file p size = do
  refused ← gets (λ fs. fs.refuses p || is_dir p fs)
  raise_if refused (os_error (path_text p))
  room ← gets (is_dir (parent p))
  raise_if (not room) (file_not_found (path_text p))
  modify (put_file p size)
