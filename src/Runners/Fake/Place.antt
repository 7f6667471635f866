-- ===== src/Runners/Fake/Place.antt =====
-- The place of a fake observation, and the states on the way to its end.
use Prim.Native.Nat.{min, max}
use Prim.Native.String.{len}
use ska_sdp_mini_control.Prelude.{
  ℕ, zero, suc, ◌+◌, ◌-◌, ◌≤◌, ◌≡◌, ◌∙◌, refl, ap, true, false, String, [], ◌∷◌, ◌++◌, arith,
  Bool-cases, inl, inr, any, ok, ◌>>=◌, ◌>>◌,
}
use ska_sdp_mini_control.Models.{FilePath}
use ska_sdp_mini_control.Files.{Files, path_eq, is_under, exists, is_dir, parent}
use ska_sdp_mini_control.Files.Paths.{path_eq_iff, strip-append}
use ska_sdp_mini_control.Files.Removal.{is_under_self}
use ska_sdp_mini_control.Files.Allowed.{Allows, Reachable, dir_exists}
use ska_sdp_mini_control.Files.Writing.{put_file, write_file}
use ska_sdp_mini_control.Files.Written
use ska_sdp_mini_control.Storage.{apparent_size}
use ska_sdp_mini_control.Runners.Fake.{
  marker, chunk_size, write_chunks, data_bytes, write_measurement_set,
}
use ska_sdp_mini_control.Runners.Fake.Sizes

-- The loop ends with nothing left to write, and has written all, where it has a round for each
-- byte and its chunk is not empty.
write_chunks_lem :
    (rounds chunk remaining written : ℕ)
    → 1 ≤ chunk
    → remaining ≤ rounds
    → write_chunks rounds chunk remaining written ≡ (0, written + remaining)
unfolding write_chunks
write_chunks_lem zero chunk remaining written some_bytes enough = ground arith
write_chunks_lem (suc rounds) chunk remaining written some_bytes enough =
    let n = min chunk remaining in
    let rest =
      write_chunks_lem rounds chunk (remaining - n) (written + n) some_bytes (omega arith) in
    ground (arith, rest)

-- DATA gets the bytes that the marker leaves of the size.
data_bytes_lem : (size : ℕ) → data_bytes size ≡ size - len marker
unfolding data_bytes
data_bytes_lem size =
    ap (λ (p : ℕ × ℕ). p.1)
      (write_chunks_lem (size - len marker) (chunk_size (size - len marker)) (size - len marker) 0
        (omega arith) (omega arith))
    ∙ omega arith

-- The place of the data and the place of the log, before the runner is called: nothing is refused,
-- the directories above both are there, and nothing stands at the data's name or below it.
pub record Free (base : FilePath) (name : String) (log_path : FilePath) (fs : Files) : Type 0 where
  pub allowed : Allows fs
  pub above : Reachable base fs
  pub nothing : any (λ e. is_under (base ++ name ∷ []) e.0) fs.entries ≡ false
  pub log_above : Reachable (parent log_path) fs
  pub log_free : is_dir log_path fs ≡ false
  pub apart : is_under (base ++ name ∷ []) log_path ≡ false

-- The state after DATA, after table.info, and after the log.
abbrev pub with_data : ℕ → FilePath → Files → Files
with_data size ms fs = put_file (ms ++ "DATA" ∷ []) (data_bytes size) (Written.made ms fs)

abbrev pub with_marker : ℕ → FilePath → Files → Files
with_marker size ms fs = put_file (ms ++ "table.info" ∷ []) (len marker) (with_data size ms fs)

child_is_other : (ms : FilePath) (a : String) → path_eq (ms ++ a ∷ []) ms ≡ false
unfolding path_eq
child_is_other [] a = refl
child_is_other (b ∷ ms) a = ground (arith, child_is_other ms a)

is_under_child : (ms : FilePath) (a : String) → is_under ms (ms ++ a ∷ []) ≡ true
is_under_child ms a = rw (strip-append ms (a ∷ [])) refl

other_apart :
    (ms p q : FilePath) → is_under ms p ≡ true → is_under ms q ≡ false → path_eq p q ≡ false
other_apart ms p q below apart =
    Written.path_eq-false p q (λ same. ground (arith, ap (λ r. is_under ms r) same))

other_names : (ms : FilePath) → path_eq (ms ++ "DATA" ∷ []) (ms ++ "table.info" ∷ []) ≡ false
unfolding path_eq
other_names ms = Written.path_eq-append ms ("DATA" ∷ []) ("table.info" ∷ [])

module _ (size : ℕ) (base : FilePath) (name : String) (log_path : FilePath) (fs : Files)
    (free : Free base name log_path fs) where
  abbrev pub ms : FilePath
  ms = base ++ name ∷ []

  absent : exists ms fs ≡ false
  absent = Written.exists-below ms ms fs free.nothing (is_under_self ms)

  child_absent : (a : String) → exists (ms ++ a ∷ []) fs ≡ false
  child_absent a = Written.exists-below ms (ms ++ a ∷ []) fs free.nothing (is_under_child ms a)

  -- The directory is there, with no file at its names.
  made_dir : is_dir ms (Written.made ms fs) ≡ true
  made_dir = Written.is_dir-made ms ms fs ∙ ground (arith, path_eq_iff ms ms)

  child_no_dir : (a : String) → is_dir (ms ++ a ∷ []) (Written.made ms fs) ≡ false
  child_no_dir a =
      Written.is_dir-made (ms ++ a ∷ []) ms fs
      ∙ rw
          (
            dir_exists (ms ++ a ∷ []) fs (child_absent a),
            Written.path_eq_sym ms (ms ++ a ∷ []),
            child_is_other ms a,
          )
          refl

  child_new : (a : String) → exists (ms ++ a ∷ []) (Written.made ms fs) ≡ false
  child_new a =
      Written.exists-made (ms ++ a ∷ []) ms fs
      ∙ rw (child_absent a, Written.path_eq_sym ms (ms ++ a ∷ []), child_is_other ms a) refl

  with_data-dir : is_dir ms (with_data size ms fs) ≡ true
  with_data-dir =
      Written.is_dir-put_file ms (ms ++ "DATA" ∷ []) (data_bytes size) (Written.made ms fs)
        (child_is_other ms "DATA")
      ∙ made_dir

  pub data_runs : write_measurement_set size ms fs ≡ (ok tt, with_marker size ms fs)
  unfolding write_measurement_set ◌>>=◌ ◌>>◌
  data_runs =
      let allowed = Written.Allows-made ms fs free.allowed in
      rw
        (
          Written.mkdir_parents-append_one base name fs free.above
              (Written.mkdir_one_lem ms fs free.allowed absent (dir_exists ms fs absent)),
          Written.write_file_lem (ms ++ "DATA" ∷ []) (data_bytes size) (Written.made ms fs) allowed
              (child_no_dir "DATA") (rw (Written.parent-append_one ms "DATA") made_dir),
          Written.write_file_lem (ms ++ "table.info" ∷ []) (len marker) (with_data size ms fs)
              (Written.Allows-put_file (ms ++ "DATA" ∷ []) (data_bytes size) (Written.made ms fs)
                allowed)
              (Written.is_dir-put_file (ms ++ "table.info" ∷ []) (ms ++ "DATA" ∷ [])
                  (data_bytes size) (Written.made ms fs) (other_names ms)
                ∙ child_no_dir "table.info")
              (rw (Written.parent-append_one ms "table.info") with_data-dir),
        )
        refl

  with_marker-exists : exists ms (with_marker size ms fs) ≡ true
  with_marker-exists =
      Written.exists-put_file ms (ms ++ "table.info" ∷ []) (len marker) (with_data size ms fs)
        (child_is_other ms "table.info")
      ∙ Written.exists-put_file ms (ms ++ "DATA" ∷ []) (data_bytes size) (Written.made ms fs)
          (child_is_other ms "DATA")
      ∙ Written.exists-made ms ms fs
      ∙ ground (arith, path_eq_iff ms ms)

  with_marker-Holds :
      Sizes.Holds ms (0 + data_bytes size + len marker) (with_marker size ms fs).entries
  with_marker-Holds =
      Sizes.Holds-new ms (ms ++ "table.info" ∷ []) (len marker) (0 + data_bytes size)
        (with_data size ms fs)
        (Written.exists-put_file (ms ++ "table.info" ∷ []) (ms ++ "DATA" ∷ []) (data_bytes size)
            (Written.made ms fs) (other_names ms)
          ∙ child_new "table.info")
        (is_under_child ms "table.info") (child_is_other ms "table.info")
        (Sizes.Holds-new ms (ms ++ "DATA" ∷ []) (data_bytes size) 0 (Written.made ms fs)
          (child_new "DATA") (is_under_child ms "DATA") (child_is_other ms "DATA")
          (Sizes.Holds-made ms ms 0 fs (Sizes.Holds-nothing ms fs.entries free.nothing)))

  -- A directory or a name apart from the data is as it was.
  with_marker-is_dir :
      (q : FilePath) → is_under ms q ≡ false → is_dir q (with_marker size ms fs) ≡ is_dir q fs
  with_marker-is_dir q apart =
      Written.is_dir-put_file q (ms ++ "table.info" ∷ []) (len marker) (with_data size ms fs)
        (other_apart ms (ms ++ "table.info" ∷ []) q (is_under_child ms "table.info") apart)
      ∙ Written.is_dir-put_file q (ms ++ "DATA" ∷ []) (data_bytes size) (Written.made ms fs)
          (other_apart ms (ms ++ "DATA" ∷ []) q (is_under_child ms "DATA") apart)
      ∙ Written.is_dir-made q ms fs
      ∙ rw (other_apart ms ms q (is_under_self ms) apart) (ground arith)

  log_dir_apart : is_under ms (parent log_path) ≡ false
  log_dir_apart = elim (Bool-cases (is_under ms (parent log_path))) [
    | inl below ↦ ground (arith, Written.is_under-parent ms log_path below, free.apart)
    | inr apart ↦ apart
  ]

  pub log_room : is_dir (parent log_path) fs ≡ true
  log_room = free.log_above (parent log_path) (is_under_self (parent log_path))

  pub log_runs :
      (text : String)
      → write_file log_path (len text) (with_marker size ms fs)
        ≡ (ok tt, put_file log_path (len text) (with_marker size ms fs))
  log_runs text =
      Written.write_file_lem log_path (len text) (with_marker size ms fs)
        (Written.Allows-put_file (ms ++ "table.info" ∷ []) (len marker) (with_data size ms fs) (
          Written.Allows-put_file (ms ++ "DATA" ∷ []) (data_bytes size) (Written.made ms fs)
            (Written.Allows-made ms fs free.allowed)))
        (with_marker-is_dir log_path free.apart ∙ free.log_free)
        (with_marker-is_dir (parent log_path) log_dir_apart ∙ log_room)

  log_other : path_eq log_path ms ≡ false
  log_other =
      Written.path_eq_sym log_path ms ∙ other_apart ms ms log_path (is_under_self ms) free.apart

  pub nothing_made : (n : ℕ) → exists ms (put_file log_path n fs) ≡ false
  nothing_made n = Written.exists-put_file ms log_path n fs log_other ∙ absent

  pub data_there : (n : ℕ) → exists ms (put_file log_path n (with_marker size ms fs)) ≡ true
  data_there n =
      Written.exists-put_file ms log_path n (with_marker size ms fs) log_other ∙ with_marker-exists

  pub data_size :
      (n : ℕ)
      → apparent_size ms (put_file log_path n (with_marker size ms fs)) ≡ max (len marker) size
  data_size n =
      Sizes.apparent_size_lem ms (0 + data_bytes size + len marker)
        (put_file log_path n (with_marker size ms fs)) (data_there n)
        (Sizes.Holds-apart ms log_path n (0 + data_bytes size + len marker) (with_marker size ms fs)
          free.apart log_other with_marker-Holds)
      ∙ omega (arith, data_bytes_lem size)
