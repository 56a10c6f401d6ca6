-- ===== src/Rklab/Hash.antt =====
-- The modular arithmetic and the rolling hash of rklab/rkgrep.c. A `long long` is an integer, and its
-- overflow is not modelled.
pub mod Rolling
use cso_fall.Common.{ℕ, zero, suc, Option, some, ◌>>=◌, ℤ, pos, negsuc, if◌then◌else◌}
use cso_fall.Common.Int.{◌+ℤ◌, ◌-ℤ◌, ◌*ℤ◌, tmod, ltb_ℤ}
use cso_fall.Rklab.Text.{CString, char_at}

abbrev pub prime : ℕ
prime = 961748941

unfoldable pub madd : ℤ → ℤ → ℤ
madd a b = tmod (a +ℤ b) prime

unfoldable pub msub : ℤ → ℤ → ℤ
msub a b = if ltb_ℤ b a then a -ℤ b else a +ℤ pos prime -ℤ b

unfoldable pub mmul : ℤ → ℤ → ℤ
mmul a b = tmod (a *ℤ b) prime

-- `for (i = m - 1; i >= 0; --i)`, on the number of rounds left
init_loop : CString → ℕ → (hashret rkval : ℤ) → Option (ℤ × ℤ)
init_loop charbuf zero hashret rkval = some (hashret, rkval)
init_loop charbuf (suc i) hashret rkval = do
  c ← char_at charbuf i
  init_loop charbuf i (madd hashret (mmul rkval c)) (mmul rkval (pos 256))

-- Returns the hash and `*h`.
unfoldable pub rkhash_init : CString → ℕ → Option (ℤ × ℤ)
unfolding init_loop
rkhash_init charbuf m = init_loop charbuf m (pos 0) (pos 1)

unfoldable pub rkhash_next : (curr_hash h leftmost rightmost : ℤ) → ℤ
unfolding madd msub mmul
rkhash_next curr_hash h leftmost rightmost =
    madd (msub (mmul (pos 256) curr_hash) (mmul leftmost h)) rightmost
