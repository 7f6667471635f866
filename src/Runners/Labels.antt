-- ===== src/Runners/Labels.antt =====
-- The labels of the containers that are launched, against the filters that look for them.
mod Texts
use Prim.Native.String.{String, ◌++◌}
use text.Mathlib.Text.{◌==◌ as str_eq}
use text.Mathlib.TextLemmas
use ska_sdp_mini_control.Prelude.{
  ℕ, ◌≡◌, ◌≢◌, ◌∙◌, refl, sym, ap, true, false, Bool, ◌&&◌, ◌||◌, Bool-cases, Option-cases, inl,
  inr, some, none, Option, List, [], ◌∷◌, arith, any, if◌then◌else◌, ◌==◌, ==_iff,
}
use ska_sdp_mini_control.Prelude.Format.{concat}
use ska_sdp_mini_control.Models.{FilePath}
use ska_sdp_mini_control.Runners.{
  ContainerRunner, abort_filters, kill_filters, observe_command, process_command, container_path,
}
use ska_sdp_mini_control.Runners.Labels.Texts.{
  oid_label, rid_label, oid_met, managed_unmet, kind_unmet, oid_no_kind, rid_no_kind,
}

-- The options of the engine's `run` that the commands have, up to the first word that is none; the
-- labels are the values of --label.
abbrev pub labels_of : List String → List String
labels_of [] = []
labels_of (a ∷ []) = []
labels_of (a ∷ b ∷ words) =
    let after = labels_of words in
    let behind = labels_of (b ∷ words) in
    if str_eq a "--label"
    then b ∷ after
    else if str_eq a "--name" || str_eq a "-v"
    then after
    else if str_eq a "--rm"
    then behind
    else []

-- The labels of the container that a command makes; its first words are the engine and `run`.
unfoldable pub container_labels : List String → List String
container_labels (engine ∷ command ∷ words) = labels_of words
container_labels _ = []

abbrev pub has_label : List String → String → Bool
has_label labels filter = any (λ l. str_eq (concat ("label=" ∷ l ∷ [])) filter) labels

-- `ps` with filters lists the containers that have each of the labels.
unfoldable pub selects : List String → List String → Bool
selects [] labels = true
selects (filter ∷ filters) labels = has_label labels filter && selects filters labels

-- A word at which the options end.
abbrev pub IsNoOption : String → Type 0
IsNoOption word =
    (str_eq word "--label" ≡ false)
    × (str_eq word "--name" ≡ false)
    × (str_eq word "-v" ≡ false)
    × (str_eq word "--rm" ≡ false)

abbrev or_empty : Option (List String) → List String
or_empty none = []
or_empty (some words) = words

observe_labels :
    (r : ContainerRunner) (oid : ℕ) (ms_path : FilePath) (args : List String)
    → IsNoOption r.image
    → observe_command r oid ms_path ≡ some args
    → container_labels args ≡ "sdpctl.managed=true" ∷ "sdpctl.kind=observation" ∷ oid_label oid ∷ []
unfolding observe_command container_labels
observe_labels r oid ms_path args (a, b, c, d) made =
    elim (Option-cases (container_path r.data_root ms_path)) [
      | inl outside ↦ absurd (ground (arith, made, outside))
      | inr (ms, inside) ↦
          ap (λ o. container_labels (or_empty o)) (sym (rw inside at made)) ∙ rw (a, b, c, d) refl
    ]

process_labels :
    (r : ContainerRunner) (oid rid : ℕ) (ms_path output_prefix : FilePath) (args : List String)
    → IsNoOption r.image
    → process_command r oid rid ms_path output_prefix ≡ some args
    → container_labels args
      ≡ "sdpctl.managed=true" ∷ "sdpctl.kind=processing" ∷ oid_label oid ∷ rid_label rid ∷ []
unfolding process_command container_labels
process_labels r oid rid ms_path output_prefix args (a, b, c, d) made =
    elim (Option-cases (container_path r.data_root ms_path)) [
      | inl outside ↦ absurd (ground (arith, made, outside))
      | inr (ms, inside) ↦ elim (Option-cases (container_path r.data_root output_prefix)) [
        | inl outside ↦ absurd (ground (arith, made, inside, outside))
        | inr (out, there) ↦
            ap (λ o. container_labels (or_empty o)) (sym (rw (inside, there) at made))
            ∙ rw (a, b, c, d) refl
      ]
    ]

-- The gate's filter selects each container that observe or process launches; the filters of
-- abort_observation select that of `observe` for the same observation, and neither one for another
-- observation nor one of `process`, where the image's name is not an option of the engine.
pub abort_filters-select :
    (r : ContainerRunner) (oid rid k : ℕ) (ms_path output_prefix : FilePath)
    (observing processing : List String)
    → IsNoOption r.image
    → observe_command r oid ms_path ≡ some observing
    → process_command r oid rid ms_path output_prefix ≡ some processing
    → (selects kill_filters (container_labels observing) ≡ true)
      × (selects kill_filters (container_labels processing) ≡ true)
      × (selects (abort_filters k) (container_labels observing) ≡ (oid == k))
      × (selects (abort_filters k) (container_labels processing) ≡ false)
unfolding selects abort_filters any concat
abort_filters-select r oid rid k ms_path output_prefix observing processing plain observe_made
      process_made =
    let watched = observe_labels r oid ms_path observing plain observe_made in
    let worked = process_labels r oid rid ms_path output_prefix processing plain process_made in
    (
      rw watched refl,
      rw worked refl,
      rw (watched, managed_unmet k, kind_unmet k, oid_met oid k) (ground arith),
      rw (worked, oid_no_kind oid, rid_no_kind rid) refl,
    )
