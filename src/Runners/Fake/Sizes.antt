-- ===== src/Runners/Fake/Sizes.antt =====
-- The size of a Measurement Set, while the fake runner writes it.
use ska_sdp_mini_control.Prelude.{
  ℕ, ◌+◌, ◌≡◌, refl, ◌∙◌, true, false, none, List, [], ◌∷◌, ◌++◌, arith, Bool-cases, inl, inr, any,
  find, update, sum_where, if◌then◌else◌,
}
use ska_sdp_mini_control.Models.{FilePath}
use ska_sdp_mini_control.Files.{
  Files, Entry, file, dir, path_eq, is_under, at_path, exists, touch, set_mtime, parent,
}
use ska_sdp_mini_control.Files.Paths.{path_eq_iff}
use ska_sdp_mini_control.Files.Removal.{is_under_self}
use ska_sdp_mini_control.Files.Writing.{put_file, set_node}
use ska_sdp_mini_control.Files.Written.{made}
use ska_sdp_mini_control.Storage.{apparent_size, is_file_at, is_file_below, st_size}

-- No file stands at the path, and the files below it have n bytes.
pub record Holds (ms : FilePath) (n : ℕ) (es : List Entry) : Type 0 where
  pub no_file : find (is_file_at ms) es ≡ none
  pub bytes : sum_where (is_file_below ms) st_size es ≡ n

pub apparent_size_lem :
    (ms : FilePath) (n : ℕ) (fs : Files)
    → exists ms fs ≡ true
    → Holds ms n fs.entries
    → apparent_size ms fs ≡ n
unfolding apparent_size
apparent_size_lem ms n fs there h = rw (there, h.no_file) h.bytes

module _ (ms : FilePath) where
  find-touched :
      (p : FilePath) (t : ℕ) (es : List Entry)
      → find (is_file_at ms) es ≡ none
      → find (is_file_at ms) (update (at_path p) (set_mtime t) es) ≡ none
  unfolding find update
  find-touched p t [] h = refl
  find-touched p t ((r, file size mtime) ∷ es) h = ground (arith, find-touched p t es)
  find-touched p t ((r, dir mtime) ∷ es) h = ground (arith, find-touched p t es)

  sum-touched :
      (p : FilePath) (t : ℕ) (es : List Entry)
      → sum_where (is_file_below ms) st_size (update (at_path p) (set_mtime t) es)
        ≡ sum_where (is_file_below ms) st_size es
  unfolding sum_where update
  sum-touched p t [] = refl
  sum-touched p t ((r, file size mtime) ∷ es) = ground (arith, sum-touched p t es)
  sum-touched p t ((r, dir mtime) ∷ es) = ground (arith, sum-touched p t es)

  pub Holds-touch :
      (p : FilePath) (n : ℕ) (fs : Files) → Holds ms n fs.entries → Holds ms n (touch p fs).entries
  unfolding touch
  Holds-touch p n fs h = record {
    no_file = find-touched p fs.clock fs.entries h.no_file;
    bytes = sum-touched p fs.clock fs.entries ∙ h.bytes;
  }

  find-append_one :
      (es : List Entry) (e : Entry)
      → find (is_file_at ms) es ≡ none
      → is_file_at ms e ≡ false
      → find (is_file_at ms) (es ++ e ∷ []) ≡ none
  unfolding find
  find-append_one [] e h other = ground arith
  find-append_one (d ∷ es) e h other = ground (arith, find-append_one es e)

  sum-append_one :
      (es : List Entry) (e : Entry)
      → sum_where (is_file_below ms) st_size (es ++ e ∷ [])
        ≡ sum_where (is_file_below ms) st_size es + (if is_file_below ms e then st_size e else 0)
  unfolding sum_where
  sum-append_one [] e = ground arith
  sum-append_one (d ∷ es) e = ground (arith, sum-append_one es e)

  pub Holds-made :
      (p : FilePath) (n : ℕ) (fs : Files) → Holds ms n fs.entries → Holds ms n (made p fs).entries
  Holds-made p n fs h =
      Holds-touch (parent p) n (record fs { entries = fs.entries ++ (p, dir fs.clock) ∷ [] })
        (record {
          no_file = find-append_one fs.entries (p, dir fs.clock) h.no_file refl;
          bytes = ground (arith, sum-append_one fs.entries (p, dir fs.clock), h.bytes);
        })

  -- A new file below the path adds its bytes.
  pub Holds-new :
      (p : FilePath) (size n : ℕ) (fs : Files)
      → exists p fs ≡ false
      → is_under ms p ≡ true
      → path_eq p ms ≡ false
      → Holds ms n fs.entries
      → Holds ms (n + size) (put_file p size fs).entries
  unfolding put_file
  Holds-new p size n fs new below other h = rw new (
      Holds-touch (parent p) (n + size)
        (record fs { entries = fs.entries ++ (p, file size fs.clock) ∷ [] })
        (record {
          no_file = find-append_one fs.entries (p, file size fs.clock) h.no_file other;
          bytes = ground (arith, sum-append_one fs.entries (p, file size fs.clock), h.bytes);
        }))

  find-set :
      (p : FilePath) (size t : ℕ) (es : List Entry)
      → path_eq p ms ≡ false
      → find (is_file_at ms) es ≡ none
      → find (is_file_at ms) (update (at_path p) (set_node (file size t)) es) ≡ none
  unfolding find update
  find-set p size t [] other h = refl
  find-set p size t ((r, node) ∷ es) other h = elim (Bool-cases (path_eq r p)) [
    | inl at ↦
        let same : r ≡ p = (path_eq_iff r p).0 at in
        ground (arith, same, other, find-set p size t es)
    | inr away ↦ ground (arith, find-set p size t es)
  ]

  sum-set :
      (p : FilePath) (size t : ℕ) (es : List Entry)
      → is_under ms p ≡ false
      → sum_where (is_file_below ms) st_size (update (at_path p) (set_node (file size t)) es)
        ≡ sum_where (is_file_below ms) st_size es
  unfolding sum_where update
  sum-set p size t [] apart = refl
  sum-set p size t ((r, node) ∷ es) apart = elim (Bool-cases (path_eq r p)) [
    | inl at ↦
        let same : r ≡ p = (path_eq_iff r p).0 at in
        ground (arith, same, apart, sum-set p size t es)
    | inr away ↦ ground (arith, sum-set p size t es)
  ]

  -- A file that does not lie below the path changes nothing.
  pub Holds-apart :
      (p : FilePath) (size n : ℕ) (fs : Files)
      → is_under ms p ≡ false
      → path_eq p ms ≡ false
      → Holds ms n fs.entries
      → Holds ms n (put_file p size fs).entries
  unfolding put_file
  Holds-apart p size n fs apart other h = elim (Bool-cases (exists p fs)) [
    | inl there ↦ rw there (record {
      no_file = find-set p size fs.clock fs.entries other h.no_file;
      bytes = sum-set p size fs.clock fs.entries apart ∙ h.bytes;
    })
    | inr new ↦ rw new (
        Holds-touch (parent p) n
          (record fs { entries = fs.entries ++ (p, file size fs.clock) ∷ [] })
          (record {
            no_file = find-append_one fs.entries (p, file size fs.clock) h.no_file other;
            bytes = ground (arith, sum-append_one fs.entries (p, file size fs.clock), h.bytes);
          }))
  ]

  -- Where nothing stands at the path or below it.
  pub Holds-nothing : (es : List Entry) → any (λ e. is_under ms e.0) es ≡ false → Holds ms 0 es
  unfolding any find sum_where
  Holds-nothing [] h = record { no_file = refl; bytes = refl }
  Holds-nothing ((r, dir mtime) ∷ es) h =
      let rest = Holds-nothing es (ground arith) in
      record { no_file = rest.no_file; bytes = rest.bytes }
  Holds-nothing ((r, file size mtime) ∷ es) h =
      let rest = Holds-nothing es (ground arith) in
      record {
        no_file = ground (arith, rest.no_file, path_eq_iff r ms, is_under_self ms);
        bytes = ground (arith, rest.bytes);
      }
