-- ===== src/Clab/Tree/Visit.antt =====
-- preorder and inorder of clab/mini/part7.c.
use cso_fall.Common.{
  ℕ, zero, suc, ◌+◌, ◌-◌, ◌≤◌, ◌<◌, ◌≡◌, refl, sym, ap, ◌∙◌, Option, none, some, List, map, [], ◌∷◌,
  ◌++◌, if◌then◌else◌, length, length-append, length-set, set, get_elem?, get_elem?-set_self,
  get_elem?-set_ne, arith, take, lt→ltb, gt→leb, le→leb, length-take,
}
use cso_fall.Clab.Tree.Insert.{Filled, strings}
use cso_fall.Clab.Tree.{
  Bytes, Tree, null, node, is_null, store, preorder_do, preorder, inorder_do, inorder,
}

-- The values from left to right, and every node before its children.
unfoldable pub inorder_list : Tree → List (Option Bytes)
inorder_list null = []
inorder_list (node t left right) = inorder_list left ++ t ∷ inorder_list right

unfoldable pub preorder_list : Tree → List (Option Bytes)
preorder_list null = []
preorder_list (node t left right) = t ∷ preorder_list left ++ preorder_list right

-- Where every node has a string, these are the strings that `insert` keeps in order.
pub inorder_list-strings : (t : Tree) → Filled t → inorder_list t ≡ map some (strings t)
unfolding inorder_list strings
inorder_list-strings null filled = refl
inorder_list-strings (node none left right) filled = elim filled [ ]
inorder_list-strings (node (some t) left right) filled =
    ap (λ xs. xs ++ some t ∷ inorder_list right) (inorder_list-strings left filled.0)
    ∙ ap (λ xs. map some (strings left) ++ some t ∷ xs) (inorder_list-strings right filled.1)
    ∙ sym (map_append (strings left) (t ∷ strings right))
  where
    map_append : (xs ys : List Bytes) → map some (xs ++ ys) ≡ map some xs ++ map some ys
    map_append [] ys = refl
    map_append (x ∷ xs) ys = ap (λ zs. some x ∷ zs) (map_append xs ys)

-- `xs` written from `cur` on.
unfoldable pub write_all {ℓ} : {A : Type ℓ} → List A → ℕ → List A → List A
write_all result cur [] = result
write_all result cur (x ∷ xs) = write_all (set result cur x) (cur + 1) xs

module _ {ℓ} {A : Type ℓ} where
  pub length-write_all :
      (result : List A) (cur : ℕ) (xs : List A) → length (write_all result cur xs) ≡ length result
  unfolding write_all
  length-write_all result cur [] = refl
  length-write_all result cur (x ∷ xs) =
      length-write_all (set result cur x) (cur + 1) xs ∙ length-set result cur x

  write_all-append :
      (result : List A) (cur : ℕ) (xs ys : List A)
      → write_all result cur (xs ++ ys) ≡ write_all (write_all result cur xs) (cur + length xs) ys
  unfolding write_all
  write_all-append result cur [] ys = ap (λ i. write_all result i ys) (omega arith)
  write_all-append result cur (x ∷ xs) ys =
      write_all-append (set result cur x) (cur + 1) xs ys
      ∙ ap (λ i. write_all (write_all (set result cur x) (cur + 1) xs) i ys) (omega arith)

  get-write_all_below :
      (result : List A) (cur : ℕ) (xs : List A) (i : ℕ)
      → i < cur
      → get_elem? (write_all result cur xs) i ≡ get_elem? result i
  unfolding write_all
  get-write_all_below result cur [] i lt = refl
  get-write_all_below result cur (x ∷ xs) i lt =
      get-write_all_below (set result cur x) (cur + 1) xs i (omega arith)
      ∙ get_elem?-set_ne result cur i x (omega arith)

  get-write_all :
      (result : List A) (cur : ℕ) (xs : List A) (i : ℕ)
      → i < length xs
      → cur + length xs ≤ length result
      → get_elem? (write_all result cur xs) (cur + i) ≡ get_elem? xs i
  unfolding write_all
  get-write_all result cur [] i lt room = absurd (omega arith)
  get-write_all result cur (x ∷ xs) zero lt room =
      ap (get_elem? (write_all (set result cur x) (cur + 1) xs)) (omega arith)
      ∙ get-write_all_below (set result cur x) (cur + 1) xs cur (omega arith)
      ∙ get_elem?-set_self result cur x (omega arith)
  get-write_all result cur (x ∷ xs) (suc i) lt room =
      ap (get_elem? (write_all (set result cur x) (cur + 1) xs)) (omega arith)
      ∙ get-write_all (set result cur x) (cur + 1) xs i (omega arith)
          (omega (arith, length-set result cur x))

  get-write_all_above :
      (result : List A) (cur : ℕ) (xs : List A) (i : ℕ)
      → cur + length xs ≤ i
      → get_elem? (write_all result cur xs) i ≡ get_elem? result i
  unfolding write_all
  get-write_all_above result cur [] i lt = refl
  get-write_all_above result cur (x ∷ xs) i lt =
      get-write_all_above (set result cur x) (cur + 1) xs i (omega arith)
      ∙ get_elem?-set_ne result cur i x (omega arith)

pair_eq {ℓ κ} :
    {A : Type ℓ} {B : Type κ} {a a' : A} {b b' : B}
    → a ≡ a'
    → b ≡ b'
    → ◌≡◌ {A = A × B} (a, b) (a', b')
pair_eq p q = λ i. (p i, q i)

-- The call of a child.
abbrev into_in : Tree → List (Option Bytes) × ℕ → ℕ → Option (List (Option Bytes) × ℕ)
into_in t r max = if is_null t then some r else inorder_do t r max

inorder_do_lem :
    (t : Tree) (result : List (Option Bytes)) (cur max : ℕ)
    → cur + length (inorder_list t) ≤ max
    → max ≤ length result
    → into_in t (result, cur) max
      ≡ some (write_all result cur (inorder_list t), cur + length (inorder_list t))
unfolding inorder_do inorder_list write_all store
inorder_do_lem null result cur max room size = ap (λ i. some (result, i)) (omega arith)
inorder_do_lem (node t left right) result cur max room size =
    let sum = length-append (inorder_list left) (t ∷ inorder_list right) in
    let first = write_all result cur (inorder_list left) in
    let at = cur + length (inorder_list left) in
    let len = length-write_all result cur (inorder_list left) in
    let into_left = inorder_do_lem left result cur max (omega (arith, sum)) size in
    let into_right =
      inorder_do_lem right (set first at t) (at + 1) max (omega (arith, sum))
        (omega (arith, len, length-set first at t)) in
    rw
      (
        gt→leb cur max (omega (arith, sum)),
        into_left,
        lt→ltb at (length first) (omega (arith, sum, len)),
        into_right,
      )
      (ap some (
        pair_eq (sym (write_all-append result cur (inorder_list left) (t ∷ inorder_list right)))
          (omega (arith, sum))))

-- The array `result'` holds `xs` at its front and otherwise what `result` held.
pub record Stored {ℓ} {A : Type ℓ} (result result' xs : List A) : Type ℓ where
  pub same_size : length result' ≡ length result
  pub front : (i : ℕ) → i < length xs → get_elem? result' i ≡ get_elem? xs i
  pub rest : (i : ℕ) → length xs ≤ i → get_elem? result' i ≡ get_elem? result i

write_all-Stored {ℓ} :
    {A : Type ℓ} (result xs : List A)
    → length xs ≤ length result
    → Stored result (write_all result 0 xs) xs
write_all-Stored result xs room = record {
  same_size = length-write_all result 0 xs;
  front = λ i lt.
      ap (get_elem? (write_all result 0 xs)) (omega arith)
      ∙ get-write_all result 0 xs i lt (omega arith);
  rest = λ i le. get-write_all_above result 0 xs i (omega arith);
}

-- Where the array has room for every string, `inorder` stores the strings from left to right at its
-- front, changes nothing else, and returns their number.
pub inorder-Stored :
    (t : Option Bytes) (left right : Tree) (result : List (Option Bytes)) (max_result : ℕ)
    → length (inorder_list (node t left right)) ≤ max_result
    → max_result ≤ length result
    → (result' : List (Option Bytes)) × (inorder (node t left right) result max_result
        ≡ some (result', length (inorder_list (node t left right))))
      × Stored result result' (inorder_list (node t left right))
unfolding inorder
inorder-Stored t left right result max_result room size = (
  write_all result 0 (inorder_list (node t left right)),
  inorder_do_lem (node t left right) result 0 max_result (omega arith) size
      ∙ ap some (pair_eq refl (omega arith)),
  write_all-Stored result (inorder_list (node t left right)) (omega arith),
)

abbrev into_pre : Tree → List (Option Bytes) × ℕ → ℕ → Option (List (Option Bytes) × ℕ)
into_pre t r max = if is_null t then some r else preorder_do t r max

pub take-append {ℓ} :
    {A : Type ℓ} (k : ℕ) (xs ys : List A)
    → take k (xs ++ ys) ≡ take k xs ++ take (k - length (take k xs)) ys
take-append zero xs ys = ap (λ i. take i ys) (the_rest 0)
  where
    the_rest : (n : ℕ) → 0 ≡ 0 - n
    the_rest n = omega arith
take-append (suc k) [] ys = ap (λ i. take i ys) (all_left (suc k))
  where
    all_left : (n : ℕ) → n ≡ n - 0
    all_left n = omega arith
take-append (suc k) (x ∷ xs) ys =
    let shift : k - length (take k xs) ≡ suc k - suc (length (take k xs)) = omega arith in
    ap (λ zs. x ∷ zs) (take-append k xs ys ∙ ap (λ i. take k xs ++ take i ys) shift)

-- With room for `k` more.
preorder_do_lem :
    (t : Tree) (result : List (Option Bytes)) (cur k max : ℕ)
    → cur + k ≡ max
    → max ≤ length result
    → into_pre t (result, cur) max
      ≡ some
          (write_all result cur (take k (preorder_list t)), cur + length (take k (preorder_list t)))
unfolding preorder_do preorder_list write_all store
preorder_do_lem null result cur zero max room size = ap some (pair_eq refl (omega arith))
preorder_do_lem null result cur (suc k) max room size = ap some (pair_eq refl (omega arith))
preorder_do_lem (node t left right) result cur zero max room size =
    rw (le→leb max cur (omega arith)) (ap some (pair_eq refl (omega arith)))
preorder_do_lem (node t left right) result cur (suc k) max room size =
    let vl = take k (preorder_list left) in
    let at = cur + 1 + length vl in
    let short = length-take k (preorder_list left) in
    let first = set result cur t in
    let len = length-set result cur t in
    let vr = take (k - length vl) (preorder_list right) in
    let mid = write_all first (cur + 1) vl in
    let into_left = preorder_do_lem left first (cur + 1) k max (omega arith) (omega (arith, len)) in
    let into_right =
      preorder_do_lem right mid at (k - length vl) max (omega (arith, short))
        (omega (arith, len, length-write_all first (cur + 1) vl)) in
    let both = take-append k (preorder_list left) (preorder_list right) in
    rw
      (
        gt→leb cur max (omega arith),
        lt→ltb cur (length result) (omega arith),
        into_left,
        into_right,
      )
      (ap some (
        pair_eq (sym (ap (write_all first (cur + 1)) both ∙ write_all-append first (cur + 1) vl vr))
          (omega (arith, ap length both, length-append vl vr))))

-- `preorder` stores as many strings as the array has room for, every node before its children, at the
-- front of the array, changes nothing else, and returns their number.
preorder-Stored :
    (t : Option Bytes) (left right : Tree) (result : List (Option Bytes)) (result_max : ℕ)
    → result_max ≤ length result
    → let seen = take result_max (preorder_list (node t left right)) in
      (result' : List (Option Bytes)) × (preorder (node t left right) result result_max
        ≡ some (result', length seen))
      × Stored result result' seen
unfolding preorder
preorder-Stored t left right result result_max size =
    let seen = take result_max (preorder_list (node t left right)) in
    (
      write_all result 0 seen,
      preorder_do_lem (node t left right) result 0 result_max result_max (omega arith) size
          ∙ ap some (pair_eq refl (omega arith)),
      write_all-Stored result seen
          (omega (arith, size, length-take result_max (preorder_list (node t left right)))),
    )
