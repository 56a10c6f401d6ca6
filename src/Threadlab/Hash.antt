-- ===== src/Threadlab/Hash.antt =====
-- madd, mmul and hashcode of threadlab/htable.c. An `int` is an integer, and its overflow is not
-- modelled; the child has the range of the hash code on ASCII keys.
pub mod Range
use cso_fall.Common.{ℕ, [], ◌∷◌, ℤ, pos, if◌then◌else◌}
use cso_fall.Common.Int.{◌+ℤ◌, ◌-ℤ◌, ◌*ℤ◌, tmod, ltb_ℤ}
use cso_fall.Common.Text.{CString}

abbrev pub big_prime : ℕ
big_prime = 1560007

unfoldable pub madd : ℤ → ℤ → ℤ
madd a b = if ltb_ℤ (pos big_prime) (a +ℤ b) then a +ℤ b -ℤ pos big_prime else a +ℤ b

unfoldable pub mmul : ℤ → ℤ → ℤ
mmul a b = tmod (a *ℤ b) big_prime

hashcode_loop : CString → ℤ → ℤ
hashcode_loop [] p = p
hashcode_loop (c ∷ s) p = hashcode_loop s (madd (mmul p (pos 256)) c)

unfoldable pub hashcode : CString → ℤ
unfolding hashcode_loop
hashcode s = hashcode_loop s (pos 0)
