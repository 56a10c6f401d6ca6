-- ===== src/Clab/Token.antt =====
-- clab/mini/part8.c: string_token. A pointer into the buffer is the string that stands there, and the
-- call cuts that string: the token is what stands at the old pointer when the delimiters are
-- overwritten with terminators, and what stands at `*saveptr` is the rest.
pub mod Split
use cso_fall.Common.{
  ℕ, zero, suc, ◌+◌, Option, none, some, List, [], ◌∷◌, ◌++◌, if◌then◌else◌, length, ℤ,
}
use cso_fall.Common.Int.{eqb_ℤ}
use cso_fall.Common.Text.{CString}

-- `while (*str == delim)`, and what is stored in `*saveptr` behind it.
unfoldable pub skip : ℤ → CString → Option CString
skip delim [] = none
skip delim (c ∷ str) = let rest = skip delim str in if eqb_ℤ c delim then rest else some (c ∷ str)

-- `while (*str != delim)`, and what follows.
unfoldable pub scan : ℤ → CString → CString × Option CString
unfolding skip
scan delim [] = ([], none)
scan delim (c ∷ str) =
    let (token, saved) = scan delim str in
    if eqb_ℤ c delim then ([], skip delim (c ∷ str)) else (c ∷ token, saved)

-- The token, if there is one, and `*saveptr`.
unfoldable pub string_token : Option CString → ℤ → Option CString → Option CString × Option CString
string_token (some str) delim saveptr = let (token, saved) = scan delim str in (some token, saved)
string_token none delim none = (none, none)
string_token none delim (some saveptr) =
    let (token, saved) = scan delim saveptr in (some token, saved)
