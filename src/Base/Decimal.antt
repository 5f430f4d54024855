-- ===== src/Base/Decimal.antt =====
-- std::to_string on a natural number, and how an ostream prints one.
use Prim.Native.Nat.{ℕ, zero, suc, ◌+◌, ◌/◌, ◌%◌}
use mathlib.Core.List.{[], ◌∷◌}
use langchain_cpp.Base.Tests.{ltb, if◌then◌else◌}
use langchain_cpp.Base.Text.{Text}

-- A number has fewer digits than its successor is large, so the fuel is enough.
unfoldable pub digits_onto : ℕ → ℕ → Text → Text
digits_onto zero n out = out
digits_onto (suc fuel) n out =
    let rest = digits_onto fuel (n / 10) ((48 + n % 10) ∷ out) in
    if ltb n 10 then (48 + n) ∷ out else rest

unfoldable pub to_string : ℕ → Text
unfolding digits_onto
to_string n = digits_onto (suc n) n []
