-- ===== src/Common/Tables.antt =====
-- A test run at every number under a limit. The module models no code.
use Prim.Native.Nat.{ℕ, zero, suc, ◌<◌}
use mathlib.Core.Path.{◌≡◌}
use mathlib.Core.Bool.{Bool, true, ◌&&◌}
use native.Mathlib.Omega.{arith}
use native.Mathlib.Decide.{dec_lt}

-- The test holds of every number under the limit: run over all bytes and all pairs of their bits.
unfoldable pub passes_under : (ℕ → Bool) → (limit : ℕ) → Bool
passes_under test zero = true
passes_under test (suc limit) = passes_under test limit && test limit

pub pass_at :
    (test : ℕ → Bool) (limit : ℕ)
    → passes_under test limit ≡ true
    → (x : ℕ) → x < limit
    → test x ≡ true
unfolding passes_under
pass_at test zero run x h = absurd (omega arith)
pass_at test (suc limit) run x h = elim (dec_lt x limit) [
  | yes below ↦ pass_at test limit (ground arith) x below
  | no last ↦ let e : x ≡ limit = omega arith in rw e (ground arith)
]
