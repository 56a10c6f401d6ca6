-- ===== src/Common/Text.antt =====
-- C strings. A string is the list of its (signed) characters before the terminator; a pointer into it
-- is a suffix of that list, and `*p` at the empty suffix is the terminator.
use Prim.Native.Nat.{ℕ, zero, suc}
use mathlib.Core.Bool.{Bool, true, false}
use mathlib.Core.Option.{Option, none, some}
use mathlib.Core.List.{List, [], ◌∷◌, map}
use cso_fall.Common.Int.{ℤ, pos}

abbrev pub CString : Type 0
CString = List ℤ

-- `p[i]`: the terminator stands behind the characters, and nothing may be read behind it
unfoldable pub char_at : CString → ℕ → Option ℤ
char_at [] zero = some (pos 0)
char_at [] (suc i) = none
char_at (c ∷ cs) zero = some c
char_at (c ∷ cs) (suc i) = char_at cs i

-- `*p == '\0'`
abbrev pub at_end : CString → Bool
at_end [] = true
at_end (c ∷ cs) = false

-- A string of characters that are not negative, as ASCII characters are.
abbrev pub chars : List ℕ → CString
chars = map pos
