-- ===== src/Prelude/Words.antt =====
-- Machine words as native numbers, with the checks that the source's methods make, and the
-- numbers that slices of bytes spell.
use Prim.Native.Nat.{ℕ, ◌+◌, ◌-◌, ◌*◌, ◌/◌, ◌%◌, ◌^◌}
use mathlib.Core.Bool.{Bool, true, false, ◌&&◌}
use mathlib.Core.List.{List, [], ◌∷◌}
use mathlib.Core.Option.{Option, none, some}
use bracket_chain_programs.Prelude.Tests.{ltb, leb, ◌==◌, if◌then◌else◌}
use bracket_chain_programs.Prelude.Lists.{take, drop}

-- `checked_add` on words of `w` bits.
abbrev pub checked_add : ℕ → ℕ → ℕ → Option ℕ
checked_add w a b = if ltb (a + b) (2 ^ w) then some (a + b) else none

-- `checked_mul` on words of `w` bits.
abbrev pub checked_mul : ℕ → ℕ → ℕ → Option ℕ
checked_mul w a b = if ltb (a * b) (2 ^ w) then some (a * b) else none

-- `checked_sub` on unsigned words of any width.
abbrev pub checked_sub : ℕ → ℕ → Option ℕ
checked_sub a b = if leb b a then some (a - b) else none

-- `checked_div` on unsigned words of any width.
abbrev pub checked_div : ℕ → ℕ → Option ℕ
checked_div a b = if b == 0 then none else some (a / b)

-- `as` to an unsigned word of `w` bits.
abbrev pub truncate : ℕ → ℕ → ℕ
truncate w a = a % 2 ^ w

-- `saturating_add(1)` on a byte.
abbrev pub saturating_inc8 : ℕ → ℕ
saturating_inc8 a = if ltb a 255 then a + 1 else 255

-- The number that bytes spell, the lowest first.
abbrev pub le_number : List ℕ → ℕ
le_number [] = 0
le_number (b ∷ bs) = b + 256 * le_number bs

-- `&data[from..to]`
abbrev pub slice : List ℕ → ℕ → ℕ → List ℕ
slice data_bytes from to = take (to - from) (drop from data_bytes)

-- Equality of byte arrays.
unfoldable pub bytes_eq : List ℕ → List ℕ → Bool
bytes_eq [] [] = true
bytes_eq [] (b ∷ bs) = false
bytes_eq (a ∷ as') [] = false
bytes_eq (a ∷ as') (b ∷ bs) = a == b && bytes_eq as' bs
