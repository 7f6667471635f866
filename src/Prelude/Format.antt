-- ===== src/Prelude/Format.antt =====
-- Numbers in texts: `str(n)` and the format `{n:06d}`.
pub mod Read
use Prim.Native.Nat.{ℕ, zero, suc, ◌-◌, ◌/◌, ◌%◌}
use Prim.Native.String.{String, ◌++◌, count}
use mathlib.Core.List.{List, [], ◌∷◌}
use mathlib.Core.Path.{◌≡◌, refl}
use ska_sdp_mini_control.Prelude.Tests.{ltb, if◌then◌else◌}
use ska_sdp_mini_control.Prelude.Int.{ℤ, pos, negsuc}

unfoldable pub digit : ℕ → String
digit zero = "0"
digit (suc zero) = "1"
digit (suc (suc zero)) = "2"
digit (suc (suc (suc zero))) = "3"
digit (suc (suc (suc (suc zero)))) = "4"
digit (suc (suc (suc (suc (suc zero))))) = "5"
digit (suc (suc (suc (suc (suc (suc zero)))))) = "6"
digit (suc (suc (suc (suc (suc (suc (suc zero))))))) = "7"
digit (suc (suc (suc (suc (suc (suc (suc (suc zero)))))))) = "8"
digit _ = "9"

-- A number below 10 ^ fuel; a number has fewer digits than its successor says.
unfoldable pub decimal_digits : ℕ → ℕ → String
decimal_digits zero n = ""
decimal_digits (suc fuel) n =
    let front = decimal_digits fuel (n / 10) in
    if ltb n 10 then digit n else front ++ digit (n % 10)

-- str(n)
unfoldable pub decimal : ℕ → String
unfolding digit decimal_digits
decimal n = decimal_digits (suc n) n

unfoldable pub decimal_int : ℤ → String
unfolding decimal
decimal_int (pos n) = decimal n
decimal_int (negsuc n) = "-" ++ decimal (suc n)

unfoldable pub zeros : ℕ → String
zeros zero = ""
zeros (suc n) = "0" ++ zeros n

-- f"{n:0{width}d}"
unfoldable pub zero_pad : ℕ → ℕ → String
unfolding decimal zeros
zero_pad width n = zeros (width - count (decimal n)) ++ decimal n

six_digits : ◌≡◌ {A = String} (zero_pad 6 42) "000042"
unfolding zero_pad
six_digits = refl

-- The parts of an f-string.
unfoldable pub concat : List String → String
concat [] = ""
concat (s ∷ ss) = s ++ concat ss
