-- ===== src/Prelude/Decimal.antt =====
-- strconv.Itoa.
use Prim.Native.Nat.{ℕ, zero, suc, ◌+◌, ◌/◌, ◌%◌}
use mathlib.Core.List.{[], ◌∷◌, ◌++◌}
use go_symphony.Prelude.Tests.{ltb, if◌then◌else◌}
use go_symphony.Prelude.Int.{ℤ, pos, negsuc}
use go_symphony.Prelude.Text.{Text}

-- A number has at most as many digits as its successor counts.
unfoldable pub digits : ℕ → ℕ → Text
digits zero n = []
digits (suc fuel) n =
    let rest = digits fuel (n / 10) in
    if ltb n 10 then (b'0' + n) ∷ [] else rest ++ (b'0' + n % 10) ∷ []

unfoldable pub int_text : ℤ → Text
unfolding digits
int_text (pos n) = digits (suc n) n
int_text (negsuc n) = b'-' ∷ digits (suc (suc n)) (suc n)
