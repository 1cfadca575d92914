-- ===== src/Base/Bytes.antt =====
-- Byte strings as lists of numbers, and big-endian words.
use Prim.Native.Nat.{ℕ, ◌+◌, ◌*◌, ◌/◌, ◌%◌, ◌<◌}
use mathlib.Core.Path.{◌≡◌, ap₂}
use mathlib.Core.List.{List, [], ◌∷◌}
use native.Mathlib.Omega.{arith}

abbrev pub Bytes : Type 0
Bytes = List ℕ

abbrev pub IsByte : ℕ → Type 0
IsByte b = b < 256

-- `u16::to_be_bytes` and `u32::to_be_bytes`.
abbrev pub to_be_16 : ℕ → Bytes
to_be_16 n = (n / 256 % 256) ∷ (n % 256) ∷ []

abbrev pub to_be_32 : ℕ → Bytes
to_be_32 n = (n / 16777216 % 256) ∷ (n / 65536 % 256) ∷ (n / 256 % 256) ∷ (n % 256) ∷ []

-- `u16::from_be_bytes` and `u32::from_be_bytes`.
abbrev pub from_be_16 : ℕ → ℕ → ℕ
from_be_16 a b = a * 256 + b

abbrev pub from_be_32 : ℕ → ℕ → ℕ → ℕ → ℕ
from_be_32 a b c d = a * 16777216 + b * 65536 + c * 256 + d

pub to_be-from_be_16 : (a b : ℕ) → IsByte a → IsByte b → to_be_16 (from_be_16 a b) ≡ a ∷ b ∷ []
to_be-from_be_16 a b ha hb = ap₂ (λ x y. x ∷ y ∷ []) (omega arith) (omega arith)

pub to_be-from_be_32 :
    (a b c d : ℕ)
    → IsByte a
    → IsByte b
    → IsByte c
    → IsByte d
    → to_be_32 (from_be_32 a b c d) ≡ a ∷ b ∷ c ∷ d ∷ []
to_be-from_be_32 a b c d ha hb hc hd = ground arith
