-- ===== src/Runners/Labels/Texts.antt =====
-- The texts of labels and filters: which are the same.
use Prim.Native.Char.{code}
use Prim.Native.String.{String, ◌++◌}
use text.Mathlib.Text.{◌==◌ as str_eq}
use text.Mathlib.TextEquality.{eq_iff}
use text.Mathlib.TextLemmas
use ska_sdp_mini_control.Prelude.{
  ℕ, ◌≡◌, ◌≢◌, ◌∙◌, refl, ap, false, Bool-cases, inl, inr, [], ◌∷◌, arith, ◌==◌, ==_iff,
}
use ska_sdp_mini_control.Prelude.Format.{concat, decimal}
use ska_sdp_mini_control.Prelude.Format.Read.{decimal-injective}

initial : String → ℕ
initial String.[] = 0
initial (String.◌∷◌ c s) = code c

initial_o : (x : String) → initial ("observation_id=" ++ x) ≡ 111
unfolding initial
initial_o x = ap initial (TextLemmas.cons-append "o" "bservation_id=" x)

initial_r : (x : String) → initial ("run_id=" ++ x) ≡ 114
unfolding initial
initial_r x = ap initial (TextLemmas.cons-append "r" "un_id=" x)

-- Texts of one beginning that go on with different characters.
apart : (front a b : String) → initial a ≢ initial b → str_eq (front ++ a) (front ++ b) ≡ false
apart front a b differ = elim (Bool-cases (str_eq (front ++ a) (front ++ b))) [
  | inl same ↦ absurd (
      differ (
        ap initial
          (TextLemmas.append_cancel_left front a b ((eq_iff (front ++ a) (front ++ b)).0 same))))
  | inr other ↦ other
]

-- The filter of one observation, and the label of a number.
abbrev pub oid_filter : ℕ → String
oid_filter k = concat ("label=sdpctl.observation_id=" ∷ decimal k ∷ [])

abbrev pub oid_label : ℕ → String
oid_label oid = concat ("sdpctl.observation_id=" ∷ decimal oid ∷ [])

abbrev pub rid_label : ℕ → String
rid_label rid = concat ("sdpctl.run_id=" ∷ decimal rid ∷ [])

as_filter :
    (name x : String) → concat ("label=" ∷ concat (name ∷ x ∷ []) ∷ []) ≡ ("label=" ++ name) ++ x
unfolding concat
as_filter name x =
    rw
      (
        TextLemmas.append-nil (name ++ (x ++ "")),
        TextLemmas.append-nil x,
        TextLemmas.append_assoc "label=" name x,
      )
      refl

oid_filter_lem : (k : ℕ) → oid_filter k ≡ "label=sdpctl." ++ ("observation_id=" ++ decimal k)
unfolding concat
oid_filter_lem k =
    rw
      (
        TextLemmas.append-nil (decimal k),
        ← TextLemmas.append_assoc "label=sdpctl." "observation_id=" (decimal k),
      )
      refl

oid_label_lem : (oid : ℕ) → concat ("label=" ∷ oid_label oid ∷ []) ≡ oid_filter oid
unfolding concat
oid_label_lem oid =
    as_filter "sdpctl.observation_id=" (decimal oid) ∙ rw (TextLemmas.append-nil (decimal oid)) refl

rid_label_lem :
    (rid : ℕ)
    → concat ("label=" ∷ rid_label rid ∷ []) ≡ "label=sdpctl." ++ ("run_id=" ++ decimal rid)
rid_label_lem rid =
    as_filter "sdpctl.run_id=" (decimal rid)
    ∙ rw (← TextLemmas.append_assoc "label=sdpctl." "run_id=" (decimal rid)) refl

oid_filter-injective : (m n : ℕ) → ◌≡◌ {A = String} (oid_filter m) (oid_filter n) → m ≡ n
unfolding concat
oid_filter-injective m n e = decimal-injective m n (
    TextLemmas.append_cancel_right (decimal m) (decimal n) "" (
      TextLemmas.append_cancel_left "label=sdpctl.observation_id=" (decimal m ++ "")
        (decimal n ++ "") e))

-- The filter of an observation is met by its label only.
pub oid_met :
    (oid k : ℕ) → str_eq (concat ("label=" ∷ oid_label oid ∷ [])) (oid_filter k) ≡ (oid == k)
oid_met oid k = rw (oid_label_lem oid) (elim (Bool-cases (oid == k)) [
  | inl same ↦
      let e : oid ≡ k = (==_iff oid k).0 same in
      rw (same, e) ((eq_iff (oid_filter k) (oid_filter k)).1 refl)
  | inr other ↦ rw other (differ other)
])
  where
    differ : (oid == k) ≡ false → str_eq (oid_filter oid) (oid_filter k) ≡ false
    differ other = elim (Bool-cases (str_eq (oid_filter oid) (oid_filter k))) [
      | inl met ↦ absurd (
          ground (
            arith,
            other,
            oid_filter-injective oid k ((eq_iff (oid_filter oid) (oid_filter k)).0 met),
            ==_iff oid k,
          ))
      | inr unmet ↦ unmet
    ]

-- No word but its own label meets the filter of an observation.
pub managed_unmet : (k : ℕ) → str_eq "label=sdpctl.managed=true" (oid_filter k) ≡ false
unfolding initial
managed_unmet k = rw (oid_filter_lem k) (
    apart "label=sdpctl." "managed=true" ("observation_id=" ++ decimal k)
      (λ e. absurd (ground (arith, e, initial_o (decimal k)))))

pub kind_unmet : (k : ℕ) → str_eq "label=sdpctl.kind=observation" (oid_filter k) ≡ false
unfolding initial
kind_unmet k = rw (oid_filter_lem k) (
    apart "label=sdpctl." "kind=observation" ("observation_id=" ++ decimal k)
      (λ e. absurd (ground (arith, e, initial_o (decimal k)))))

-- Neither number meets the filter of the kind.
pub oid_no_kind :
    (oid : ℕ)
    → str_eq (concat ("label=" ∷ oid_label oid ∷ [])) "label=sdpctl.kind=observation" ≡ false
unfolding initial
oid_no_kind oid =
    rw (oid_label_lem oid, oid_filter_lem oid)
      (apart "label=sdpctl." ("observation_id=" ++ decimal oid) "kind=observation"
        (λ e. absurd (ground (arith, e, initial_o (decimal oid)))))

pub rid_no_kind :
    (rid : ℕ)
    → str_eq (concat ("label=" ∷ rid_label rid ∷ [])) "label=sdpctl.kind=observation" ≡ false
unfolding initial
rid_no_kind rid = rw (rid_label_lem rid) (
    apart "label=sdpctl." ("run_id=" ++ decimal rid) "kind=observation"
      (λ e. absurd (ground (arith, e, initial_r (decimal rid)))))
