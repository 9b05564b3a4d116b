-- ===== src/Text.antt =====
-- Texts as lists of character codes, and std::to_string.
use Prim.Native.Char.{code}
use Prim.Native.String.{String}
use multipath_proxy.Prelude.{
  ℕ, zero, suc, ◌+◌, ◌/◌, ◌%◌, ◌^◌, ◌≤◌, ◌<◌, ◌≡◌, List, [], ◌∷◌, ◌++◌, arith, ltb, if◌then◌else◌,
}

abbrev pub Text : Type 0
Text = List ℕ

-- The codes of a literal.
abbrev pub codes : String → Text
codes String.[] = []
codes (String.◌∷◌ c s) = code c ∷ codes s

-- The decimal digits of `n`; `fuel` bounds their number.
unfoldable pub digits : ℕ → ℕ → Text
digits zero n = []
digits (suc fuel) n =
    let rest = digits fuel (n / 10) in
    if ltb n 10 then (48 + n) ∷ [] else rest ++ ((48 + n % 10) ∷ [])

-- std::to_string. A number has no more digits than `n + 1`.
unfoldable pub decimal : ℕ → Text
unfolding digits
decimal n = digits (n + 1) n

-- `k` digits are enough fuel for a number below 10 ^ k, so more fuel changes nothing.
pub digits_fuel : (k f n : ℕ) → n < 10 ^ suc k → suc k ≤ f → digits f n ≡ digits (suc k) n
unfolding digits
digits_fuel k zero n h le = absurd (omega arith)
digits_fuel zero (suc f) n h le = ground arith
digits_fuel (suc k) (suc f) n h le = ground (arith, digits_fuel k f (n / 10) (omega arith))
