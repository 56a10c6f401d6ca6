-- ===== src/Clab/Tests.antt =====
-- bubble_sort at one array, string_token at one string, and the bits of three bytes.
use cso_fall.Common.{ℕ, arith, ◌≡◌, refl, some, none, Option, List, [], ◌∷◌, ℤ, pos, negsuc}
use cso_fall.Common.Text.{CString}
use cso_fall.Clab.Bits.{bit_at_index, clear_msb}
use cso_fall.Clab.Bits.Laws.{bit_at_index_lem}
use cso_fall.Clab.Token.{skip, scan, string_token}
use cso_fall.Clab.Token.Split.{Cut, string_token-Cut}
use cso_fall.Clab.Sort.{pass, mistakes, sort_loop, less, inversions, bubble_sort}
use cso_fall.Clab.Sort.Laws.{Sorted, occurrences, bubble_sort-Sorted}

abbrev three : List ℤ
three = pos 2 ∷ negsuc 0 ∷ pos 1 ∷ []

sorts_three : bubble_sort three ≡ some (negsuc 0 ∷ pos 1 ∷ pos 2 ∷ [])
unfolding bubble_sort sort_loop pass mistakes inversions less
sorts_three = refl

bubble_sort-Sorted_example :
    (out : List ℤ) × (bubble_sort three ≡ some out)
    × Sorted out
    × ((v : ℤ) → occurrences v out ≡ occurrences v three)
bubble_sort-Sorted_example = bubble_sort-Sorted three

-- "aa;;b"
abbrev text : CString
text = pos 97 ∷ pos 97 ∷ pos 59 ∷ pos 59 ∷ pos 98 ∷ []

cuts : string_token (some text) (pos 59) none ≡ (some (pos 97 ∷ pos 97 ∷ []), some (pos 98 ∷ []))
unfolding string_token scan skip
cuts = refl

-- A delimiter at the front gives an empty token.
cuts_empty :
    string_token (some (pos 59 ∷ pos 98 ∷ [])) (pos 59) none ≡ (some [], some (pos 98 ∷ []))
unfolding string_token scan skip
cuts_empty = refl

string_token-Cut_example :
    (token : CString) × (saved : Option CString) × (string_token (some text) (pos 59) none
      ≡ (some token, saved))
    × (string_token none (pos 59) (some text) ≡ (some token, saved))
    × Cut (pos 59) text token saved
string_token-Cut_example = string_token-Cut text (pos 59) none

-- The bitmap 0x001f12.
abbrev bytes : List ℕ
bytes = 0x00 ∷ 0x1f ∷ 0x12 ∷ []

bit_at_index_lem_example : bit_at_index bytes 3 (pos 11) ≡ some 1
bit_at_index_lem_example = bit_at_index_lem bytes 11 (omega arith, (omega arith, (omega arith, tt)))

-- The index -1 passes the assert and gives the first bit; a count of 40 shifts by too much.
strays :
    (bit_at_index (0x80 ∷ []) 1 (negsuc 0) ≡ some 1)
    × (clear_msb 0xffff0000 (pos 15) ≡ some 65536)
    × (clear_msb 1 (pos 40) ≡ none)
unfolding bit_at_index clear_msb
strays = (refl, refl, refl)
