-- ===== src/Prelude/Text.antt =====
-- Text as template literals build it: appending, and a number in decimal.
use Prim.Native.Nat.{ℕ, zero, suc, ◌/◌, ◌%◌}
use Prim.Native.String.{String, ◌++◌ as append}
use mathlib.Core.List.{List, [], ◌∷◌}
use chemistry.Prelude.Int.{ℤ, pos, negsuc}
use chemistry.Prelude.Tests.{ltb, if◌then◌else◌}

infixr 66 ◌&◌
abbrev pub ◌&◌ : String → String → String
s & t = append s t

digit : ℕ → String
digit zero = "0"
digit (suc zero) = "1"
digit (suc (suc zero)) = "2"
digit (suc (suc (suc zero))) = "3"
digit (suc (suc (suc (suc zero)))) = "4"
digit (suc (suc (suc (suc (suc zero))))) = "5"
digit (suc (suc (suc (suc (suc (suc zero)))))) = "6"
digit (suc (suc (suc (suc (suc (suc (suc zero))))))) = "7"
digit (suc (suc (suc (suc (suc (suc (suc (suc zero)))))))) = "8"
digit _ = "9"

digits : ℕ → ℕ → String → String
digits zero n acc = acc
digits (suc fuel) n acc =
    let rest = digits fuel (n / 10) (digit (n % 10) & acc) in
    if ltb n 10 then digit n & acc else rest

-- `${n}`: a number has at most as many digits as its value plus one.
unfoldable pub decimal : ℕ → String
unfolding digit digits
decimal n = digits (suc n) n ""

abbrev pub decimal_ℤ : ℤ → String
decimal_ℤ (pos n) = decimal n
decimal_ℤ (negsuc n) = "-" & decimal (suc n)

-- `parts.join(separator)`
abbrev pub join : String → List String → String
join separator [] = ""
join separator (part ∷ []) = part
join separator (part ∷ next ∷ rest) = part & separator & join separator (next ∷ rest)
