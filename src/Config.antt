-- ===== src/Config.antt =====
-- config.py: byte quantities, and the checks of a configuration. The file is read by YAML, so a raw
-- configuration has the numbers and texts that it gives; the texts and times that only the runners
-- read are left out. The regular expression and the float arithmetic of Python are parameters.
pub mod Checked
use text.Mathlib.Text.{◌==◌ as str_eq}
use mathlib.Core.Option
use ska_sdp_mini_control.Prelude.{
  ℕ, zero, suc, ◌*◌, ltb, String, Bool, true, false, not, ◌||◌, Option, none, some, List, [], ◌∷◌,
  Action, pure, raise, or_raise, raise_if, ◌>>=◌, ◌>>◌, find, if◌then◌else◌, value_error,
  missing_key,
}
use ska_sdp_mini_control.Prelude.Int.{ℤ, pos, negsuc}
use ska_sdp_mini_control.Prelude.Format.{concat}
use ska_sdp_mini_control.Models.{FilePath}
use ska_sdp_mini_control.Scheduler.{Config, OverrunAction, abort, warn}

-- int | str
pub data Quantity : Type 0 where
  amount : ℤ → Quantity
  written : String → Quantity

-- m.groups() of the pattern, str.upper, int(float(n) * unit), and {value!r}
pub record Python : Type 0 where
  pub groups : String → Option (String × String)
  pub upper : String → String
  pub scaled : String → ℕ → ℕ
  pub quoted : String → String

-- _UNITS
abbrev pub units : List (String × ℕ)
units =
    ("B", 1)
    ∷ ("KB", 1000)
    ∷ ("MB", 1000 * 1000)
    ∷ ("GB", 1000 * 1000 * 1000)
    ∷ ("TB", 1000 * 1000 * 1000 * 1000)
    ∷ ("KIB", 1024)
    ∷ ("MIB", 1024 * 1024)
    ∷ ("GIB", 1024 * 1024 * 1024)
    ∷ ("TIB", 1024 * 1024 * 1024 * 1024)
    ∷ []

unfoldable pub unit_size : String → Option ℕ
unit_size unit = Option.map (λ u. u.1) (find (λ u. str_eq u.0 unit) units)

-- What the YAML file gives for the keys; a key that is not there is `none`.
pub record RawConfig : Type 0 where
  pub storage_threshold : Option Quantity
  pub observation_reservation : Option Quantity
  pub max_parallel_processing : Option ℤ
  pub max_processing_attempts : Option ℤ
  pub max_observations : Option ℕ
  pub reservation_overrun_action : Option String
  pub fake_observation_size : Option Quantity

-- The fields of Config that the checks and the scheduler read.
pub record LoadedConfig : Type 0 where
  pub data_root : FilePath
  pub storage_threshold : ℕ
  pub observation_reservation : ℕ
  pub max_parallel_processing : ℤ
  pub max_processing_attempts : ℤ
  pub max_observations : Option ℕ
  pub reservation_overrun_action : OverrunAction
  pub fake_observation_size : ℕ

abbrev pub default {ℓ} : {A : Type ℓ} → Option A → A → A
default none d = d
default (some a) d = a

-- `action not in {"abort", "warn"}`, and the action that it is otherwise
unfoldable pub action_of : String → Option OverrunAction
action_of s = if str_eq s "abort" then some abort else if str_eq s "warn" then some warn else none

-- `k < 1`
abbrev pub below_one : ℤ → Bool
below_one (pos zero) = true
below_one (pos (suc n)) = false
below_one (negsuc n) = true

module _ {S : Type 0} (python : Python) where
  -- parse_bytes
  unfoldable pub parse_bytes : Quantity → Action S ℕ
  parse_bytes (amount (negsuc n)) = raise (value_error "byte value cannot be negative")
  parse_bytes (amount (pos n)) = pure n
  parse_bytes (written s) = do
    (n, unit) ←
        or_raise (python.groups s)
          (value_error (concat ("invalid byte quantity: " ∷ python.quoted s ∷ [])))
    size ←
        or_raise (unit_size (python.upper unit))
          (value_error (concat ("unsupported byte unit: " ∷ python.upper unit ∷ [])))
    pure (python.scaled n size)

  -- raw[key] of a quantity; the exception is Python's KeyError
  unfoldable pub required : Option Quantity → String → Action S ℕ
  required none key = raise (missing_key key)
  required (some q) key = parse_bytes q

  -- The three checks at the end.
  unfoldable pub check_config : LoadedConfig → Action S LoadedConfig
  check_config cfg = do
    raise_if (ltb cfg.storage_threshold cfg.observation_reservation)
        (value_error "observation_reservation exceeds storage_threshold")
    raise_if (below_one cfg.max_parallel_processing)
        (value_error "max_parallel_processing must be >= 1")
    raise_if (below_one cfg.max_processing_attempts)
        (value_error "max_processing_attempts must be >= 1")
    pure cfg

  -- load_config, of the file that was read and the data root that was resolved
  unfoldable pub load_config : FilePath → RawConfig → Action S LoadedConfig
  load_config root raw = do
    action ←
        or_raise (action_of (default raw.reservation_overrun_action "abort"))
          (value_error "reservation_overrun_action must be 'abort' or 'warn'")
    threshold ← required raw.storage_threshold "storage_threshold"
    reservation ← required raw.observation_reservation "observation_reservation"
    fake_size ← parse_bytes (default raw.fake_observation_size (written "20MiB"))
    check_config (record {
      data_root = root;
      storage_threshold = threshold;
      observation_reservation = reservation;
      max_parallel_processing = default raw.max_parallel_processing (pos 3);
      max_processing_attempts = default raw.max_processing_attempts (pos 1);
      max_observations = raw.max_observations;
      reservation_overrun_action = action;
      fake_observation_size = fake_size;
    })

abbrev pub count_of : ℤ → ℕ
count_of (pos n) = n
count_of (negsuc n) = 0

-- The configuration as the scheduler reads it.
abbrev pub for_scheduler : LoadedConfig → Config
for_scheduler cfg = record {
  data_root = cfg.data_root;
  observation_reservation = cfg.observation_reservation;
  storage_threshold = cfg.storage_threshold;
  max_observations = cfg.max_observations;
  max_processing_attempts = count_of cfg.max_processing_attempts;
  reservation_overrun_action = cfg.reservation_overrun_action;
}
