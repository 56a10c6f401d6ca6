-- ===== src/Threadlab/Htable/Tests.antt =====
-- A table of three slots with one key, and the theorems at this table.
use cso_fall.Common.{ℕ, ◌+◌, ◌≤◌, ◌≡◌, refl, arith, Bool, true, false, some, [], ◌∷◌, pos, to_nat}
use cso_fall.Common.Text.{CString, chars}
use cso_fall.Threadlab.Rwlock.{rwl_init}
use cso_fall.Threadlab.Primes.{get_prime}
use cso_fall.Threadlab.Hash.{hashcode, madd, mmul}
use cso_fall.Threadlab.Htable.{
  Node, World, str_eq, slot_of, find, is_match, htable_insert, htable_lookup, htable_resize,
}
use cso_fall.Threadlab.Htable.Chain.{count}
use cso_fall.Threadlab.Htable.Resize.{Valid, view, htable_resize-total}
use cso_fall.Threadlab.Htable.Methods.{HasSlot, htable_lookup-view}
use cso_fall.Threadlab.Htable.Insert.{Inserted, htable_insert-Inserted}

-- "ab" and "b"
abbrev ab : CString
ab = chars (97 ∷ 98 ∷ [])

abbrev b : CString
b = chars (98 ∷ [])

ab-HasSlot : HasSlot ab
unfolding hashcode madd mmul
ab-HasSlot = (24930, refl)

b-HasSlot : HasSlot b
unfolding hashcode madd mmul
b-HasSlot = (98, refl)

abbrev ab_node : Node ℕ
ab_node = record { hashcode = pos 24930; key = ab; val = 7 }

abbrev one_key : World ℕ
one_key = record {
  table = record { allow_resize = true; store = (ab_node ∷ []) ∷ [] ∷ [] ∷ []; size = 3 };
  rwl_slot = λ _. rwl_init;
  mu_locked = false;
  undergoing_resize = false;
}

to_nat_bound : (x : Bool) → to_nat x + 0 ≤ 1
to_nat_bound true = omega arith
to_nat_bound false = omega arith

one_key-Valid : Valid one_key
unfolding slot_of count
one_key-Valid = record {
  some_size = omega arith;
  sized = refl;
  placed = ((refl, tt), (tt, (tt, tt)));
  once = λ h k. to_nat_bound (is_match h k ab_node);
  idle = λ j low high. refl;
  mu_free = refl;
  settled = refl;
}

view-one_key : view one_key ab ≡ some 7
unfolding find hashcode madd mmul str_eq
view-one_key = refl

htable_resize-total_example :
    (w' : World ℕ) × (htable_resize one_key ≡ some w')
    × Valid w'
    × (get_prime 6 ≡ some w'.table.size)
    × ((k : CString) → view w' k ≡ view one_key k)
htable_resize-total_example = htable_resize-total one_key one_key-Valid

htable_lookup-view_example :
    (w' : World ℕ) × (htable_lookup one_key ab ≡ some (view one_key ab, w'))
    × Valid w'
    × (w'.table ≡ one_key.table)
htable_lookup-view_example = htable_lookup-view one_key ab one_key-Valid ab-HasSlot

htable_insert-Inserted_example :
    (r : ℕ) × (w' : World ℕ) × (htable_insert one_key b 8 ≡ some (r, w'))
    × Valid w'
    × Inserted one_key w' b 8 r
htable_insert-Inserted_example = htable_insert-Inserted one_key b 8 one_key-Valid b-HasSlot
