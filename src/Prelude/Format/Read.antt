-- ===== src/Prelude/Format/Read.antt =====
-- Printed numbers read back, so no two numbers print alike.
use Prim.Native.Nat.{ℕ, zero, suc, ◌+◌, ◌*◌, ◌-◌, ◌/◌, ◌%◌, ◌<◌}
use Prim.Native.Char.{code}
use Prim.Native.String.{String, ◌++◌, count}
use mathlib.Core.Path.{◌≡◌, refl, sym, ap, ◌∙◌}
use mathlib.Core.Logic.{inl, inr}
use text.Mathlib.TextLemmas.{nil-append, cons-append}
use native.Mathlib.Omega.{arith}
use ska_sdp_mini_control.Prelude.Tests.{ltb, Bool-cases}
use ska_sdp_mini_control.Prelude.Format.{digit, decimal_digits, decimal, zeros, zero_pad}

-- int(text), of a text of digits that follows digits of the value `acc`
unfoldable pub read_from : ℕ → String → ℕ
read_from acc String.[] = acc
read_from acc (String.◌∷◌ c s) = read_from (acc * 10 + (code c - 48)) s

read_from-append : (acc : ℕ) (s t : String) → read_from acc (s ++ t) ≡ read_from (read_from acc s) t
unfolding read_from
read_from-append acc String.[] t = rw (nil-append t) refl
read_from-append acc (String.◌∷◌ c s) t =
    rw (cons-append c s t) (read_from-append (acc * 10 + (code c - 48)) s t)

read_from-digit : (acc n : ℕ) → n < 10 → read_from acc (digit n) ≡ acc * 10 + n
unfolding read_from digit
read_from-digit acc zero h = refl
read_from-digit acc (suc zero) h = refl
read_from-digit acc (suc (suc zero)) h = refl
read_from-digit acc (suc (suc (suc zero))) h = refl
read_from-digit acc (suc (suc (suc (suc zero)))) h = refl
read_from-digit acc (suc (suc (suc (suc (suc zero))))) h = refl
read_from-digit acc (suc (suc (suc (suc (suc (suc zero)))))) h = refl
read_from-digit acc (suc (suc (suc (suc (suc (suc (suc zero))))))) h = refl
read_from-digit acc (suc (suc (suc (suc (suc (suc (suc (suc zero)))))))) h = refl
read_from-digit acc (suc (suc (suc (suc (suc (suc (suc (suc (suc zero))))))))) h = refl
read_from-digit acc (suc (suc (suc (suc (suc (suc (suc (suc (suc (suc n)))))))))) h =
    absurd (omega arith)

read_from-decimal_digits : (fuel n : ℕ) → n < fuel → read_from 0 (decimal_digits fuel n) ≡ n
unfolding decimal_digits
read_from-decimal_digits zero n h = absurd (omega arith)
read_from-decimal_digits (suc fuel) n h = elim (Bool-cases (ltb n 10)) [
  | inl small ↦ rw small (omega (arith, read_from-digit 0 n (ground arith)))
  | inr large ↦
      rw
        (
          large,
          read_from-append 0 (decimal_digits fuel (n / 10)) (digit (n % 10)),
          read_from-decimal_digits fuel (n / 10) (ground arith),
          read_from-digit (n / 10) (n % 10) (omega arith),
        )
        (omega arith)
]

read_from-zeros : (n : ℕ) → read_from 0 (zeros n) ≡ 0
unfolding read_from zeros
read_from-zeros zero = refl
read_from-zeros (suc n) = rw (read_from-append 0 "0" (zeros n)) (read_from-zeros n)

-- A padded number reads back.
pub read_from-zero_pad : (width n : ℕ) → read_from 0 (zero_pad width n) ≡ n
unfolding zero_pad decimal
read_from-zero_pad width n =
    rw (read_from-append 0 (zeros (width - count (decimal n))) (decimal n), read_from-zeros)
      (read_from-decimal_digits (suc n) n (omega arith))

pub zero_pad-injective :
    (width m n : ℕ) → ◌≡◌ {A = String} (zero_pad width m) (zero_pad width n) → m ≡ n
zero_pad-injective width m n e =
    sym (read_from-zero_pad width m) ∙ ap (read_from 0) e ∙ read_from-zero_pad width n

pub decimal-injective : (m n : ℕ) → ◌≡◌ {A = String} (decimal m) (decimal n) → m ≡ n
unfolding decimal
decimal-injective m n e =
    sym (read_from-decimal_digits (suc m) m (omega arith))
    ∙ ap (read_from 0) e
    ∙ read_from-decimal_digits (suc n) n (omega arith)
