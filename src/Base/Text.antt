-- ===== src/Base/Text.antt =====
-- The texts that error values carry: joining, decimal numbers and a search.
use Prim.Native.String as Native
use Prim.Native.String.{String}
use Prim.Native.Nat.{ℕ, zero, suc, ◌-◌, ◌/◌, ◌%◌}
use mathlib.Core.Bool.{Bool, true, false}
use mathlib.Core.Option.{some, none}
use text.Mathlib.Text.{find?}
use text.Mathlib.Text
use text.Mathlib.TextPositions.{eq_refl}
use text.Mathlib.TextEquality.{eq_iff}
use mathlib.Core.Path.{◌≡◌}
use mathlib.Core.List.{[], ◌∷◌}
use zalkanes.Base.Lists.{get_or}
use zalkanes.Base.Tests.{ltb, if◌then◌else◌}

infixr 30 ◌<>◌
abbrev pub ◌<>◌ : String → String → String
s <> t = Native.◌++◌ s t

-- Equality of texts.
unfoldable pub text_eq : String → String → Bool
text_eq s t = Text.◌==◌ s t

pub text_eq_refl : (s : String) → text_eq s s ≡ true
unfolding text_eq
text_eq_refl s = eq_refl s

pub eq_of_text_eq : (s t : String) → text_eq s t ≡ true → s ≡ t
unfolding text_eq
eq_of_text_eq s t h = (eq_iff s t).0 h

abbrev pub contains : String → String → Bool
contains s t = elim (find? s t) [ some _ ↦ true | none ↦ false ]

abbrev digit : ℕ → String
digit n = get_or ("0" ∷ "1" ∷ "2" ∷ "3" ∷ "4" ∷ "5" ∷ "6" ∷ "7" ∷ "8" ∷ "9" ∷ []) n "9"

-- At most `fuel` digits.
abbrev digits : ℕ → ℕ → String
digits zero n = ""
digits (suc fuel) n =
    let front = digits fuel (n / 10) in if ltb n 10 then digit n else front <> digit (n % 10)

-- A number below 2^64 has at most twenty digits.
abbrev pub decimal : ℕ → String
decimal n = digits 20 n

-- A 32-bit word, read as signed.
abbrev pub decimal_i32 : ℕ → String
decimal_i32 n = if ltb n 2147483648 then decimal n else "-" <> decimal (4294967296 - n)

-- A 64-bit word, read as signed.
abbrev pub decimal_i64 : ℕ → String
decimal_i64 n =
    if ltb n 9223372036854775808 then decimal n else "-" <> decimal (18446744073709551616 - n)
