-- ===== src/Qa/Names.antt =====
-- The names of data and products: storage and products of different rows never meet.
use mathlib.Core.List.{append_cancel_left, head-eq_of_cons-eq, tail-eq_of_cons-eq}
use text.Mathlib.TextLemmas
use ska_sdp_mini_control.Prelude.{ℕ, ◌≡◌, refl, String, [], ◌∷◌}
use ska_sdp_mini_control.Prelude.Format.{concat, zero_pad}
use ska_sdp_mini_control.Prelude.Format.Read.{zero_pad-injective}
use ska_sdp_mini_control.Models.{FilePath}
use ska_sdp_mini_control.Store.Observations.{ms_name}
use ska_sdp_mini_control.Qa.{product_prefix, process_log}
use ska_sdp_mini_control.Scheduler.Tick.{initial_prefix, initial_log}

labelled-injective :
    (front : String) (width m n : ℕ)
    → ◌≡◌ {A = String}
        (concat (front ∷ zero_pad width m ∷ []))
        (concat (front ∷ zero_pad width n ∷ []))
    → m ≡ n
unfolding concat
labelled-injective front width m n e = zero_pad-injective width m n (
    TextLemmas.append_cancel_right (zero_pad width m) (zero_pad width n) ""
      (TextLemmas.append_cancel_left front _ _ e))

-- Observations with different ids have different MeasurementSet names.
pub ms_name-injective : (m n : ℕ) → ◌≡◌ {A = String} (ms_name m) (ms_name n) → m ≡ n
unfolding ms_name concat
ms_name-injective m n e = zero_pad-injective 6 m n (
    TextLemmas.append_cancel_right (zero_pad 6 m) (zero_pad 6 n) ".ms"
      (TextLemmas.append_cancel_left "obs-" _ _ e))

-- The scheduler's paths of a first run are those that qa.py gives to attempt 1.
pub initial_prefix_lem :
    (root : FilePath) (oid : ℕ)
    → (initial_prefix root oid ≡ product_prefix root oid 1)
      × (initial_log root oid ≡ process_log root oid 1)
unfolding initial_prefix initial_log product_prefix process_log concat zero_pad
initial_prefix_lem root oid = (refl, refl)

-- The products of two runs have one prefix only for one observation and one attempt.
pub product_prefix-injective :
    (root : FilePath) (m n a b : ℕ)
    → product_prefix root m a ≡ product_prefix root n b
    → (m ≡ n) × (a ≡ b)
unfolding product_prefix
product_prefix-injective root m n a b e =
    let tails = tail-eq_of_cons-eq (append_cancel_left root _ _ e) in
    (
      labelled-injective "obs-" 6 m n (head-eq_of_cons-eq tails),
      labelled-injective "run-" 3 a b (head-eq_of_cons-eq (tail-eq_of_cons-eq tails)),
    )
