-- ===== src/Mangle/Text.antt =====
-- Decimal digits and texts: `to_string` on a size, and the literals that compiler/mangle.cpp and
-- compiler/type.cpp append.
use Prim.Native.Char.{code}
use Prim.Native.String.{String}
use aike.Base.{ℕ, zero, suc, ◌+◌, ◌/◌, ◌%◌, [], ◌∷◌, ◌++◌, Bytes, if◌then◌else◌, ltb}

-- The codes of an ASCII literal.
abbrev pub codes : String → Bytes
codes String.[] = []
codes (String.◌∷◌ c s) = code c ∷ codes s

-- A number has at most one digit more than itself, so the fuel is one more than the number.
unfoldable pub decimal_rec : ℕ → ℕ → Bytes
decimal_rec zero n = []
decimal_rec (suc fuel) n =
    let front = decimal_rec fuel (n / 10) in
    if ltb n 10 then (b'0' + n) ∷ [] else front ++ (b'0' + n % 10) ∷ []

unfoldable pub decimal : ℕ → Bytes
unfolding decimal_rec
decimal n = decimal_rec (suc n) n
