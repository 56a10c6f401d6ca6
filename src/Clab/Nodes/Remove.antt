-- ===== src/Clab/Nodes/Remove.antt =====
-- list_remove of clab/mini/part5.c.
use cso_fall.Common.{
  ℕ, suc, ◌+◌, ◌≡◌, ◌≢◌, inl, inr, refl, sym, ap, subst, ◌∙◌, true, false, Option, none, some,
  ◌>>=◌, [], ◌∷◌, if◌then◌else◌, ℤ, length, arith, Bool-cases,
}
use cso_fall.Common.Int.{eqb_ℤ}
use cso_fall.Clab.Nodes.{Cell, Heap, write, free_node, find_loop, list_find, unlink, list_remove}
use cso_fall.Clab.Nodes.Laws.{
  Cells, Fresh, IsList, write-same, write-other, IsList-frame, Fresh-same,
}

-- The list without the first node of the value.
unfoldable pub remove_first : ℤ → Cells → Cells
remove_first value [] = []
remove_first value (c ∷ cells) =
    let rest = remove_first value cells in if eqb_ℤ c.1 value then cells else c ∷ rest

Fresh-remove_first :
    (a : ℕ) (value : ℤ) (cells : Cells) → Fresh a cells → Fresh a (remove_first value cells)
unfolding remove_first
Fresh-remove_first a value [] fresh = tt
Fresh-remove_first a value (c ∷ cells) fresh = elim (Bool-cases (eqb_ℤ c.1 value)) [
  | inl e ↦ subst (Fresh a) (sym (hit e)) fresh.1
  | inr e ↦ subst (Fresh a) (sym (miss e)) (fresh.0, Fresh-remove_first a value cells fresh.1)
]
  where
    hit : eqb_ℤ c.1 value ≡ true → remove_first value (c ∷ cells) ≡ cells
    hit e = rw (e) refl

    miss : eqb_ℤ c.1 value ≡ false → remove_first value (c ∷ cells) ≡ c ∷ remove_first value cells
    miss e = rw (e) refl

-- The search behind the node `b`, and the removal of what it finds.
abbrev Removes : Heap → (head b : ℕ) → ℤ → ℤ → Cells → Option ℕ → Type 0
Removes heap head b w value r next =
    (c : ℕ) × (heap' : Heap) × ((find_loop (suc (length r)) heap value next (some b)
        >>= unlink heap head)
      ≡ some (c, heap', some head))
    × IsList heap' (some b) ((b, w) ∷ remove_first value r)
    × ((x : ℕ) → x ≢ b → Fresh x r → heap' x ≡ heap x)
    × (c + length (remove_first value r) ≡ length r)

remove_behind :
    (heap : Heap) (head b : ℕ) (w value : ℤ) (r : Cells) (next : Option ℕ)
    → heap b ≡ some (record { value = w; next = next })
    → Fresh b r
    → IsList heap next r
    → Removes heap head b w value r next
unfolding find_loop unlink remove_first
remove_behind heap head b w value [] next e fresh l =
    (0, heap, rw (l) refl, (refl, (next, e, tt, l)), (λ x ne f. refl), omega arith)
remove_behind heap head b w value (c ∷ post) next e fresh (at, (m, e', fresh', l)) =
    elim (Bool-cases (eqb_ℤ c.1 value)) [
      | inl y ↦
          let b_cell : Cell = record { value = w; next = m } in
          let first = write heap b (some b_cell) in
          let heap' = free_node first c.0 in
          let ends : IsList heap' (some b) ((b, w) ∷ post) = (
            refl,
            (
              m,
              write-other first c.0 b none fresh.0 ∙ write-same heap b (some b_cell),
              fresh.1,
              IsList-frame first heap' m post (Fresh-same first c.0 none post fresh')
                  (IsList-frame heap first m post (Fresh-same heap b (some b_cell) post fresh.1) l),
            ),
          ) in
          (
            1,
            heap',
            rw (at, e', y, e, e') refl,
            subst (λ z. IsList heap' (some b) ((b, w) ∷ z)) (sym (hit y)) ends,
            (λ x ne f.
                write-other first c.0 x none f.0
                ∙ write-other heap b x (some b_cell) (λ z. ne (sym z))),
            omega (arith, ap length (hit y)),
          )
      | inr n ↦
          let (c', heap', run, list, same, count) =
            remove_behind heap head c.0 c.1 value post m e' fresh' l in
          (
            c',
            heap',
            rw (at, e', n) run,
            subst (λ z. IsList heap' (some b) ((b, w) ∷ z)) (sym (miss n))
                (
                  refl,
                  (
                    some c.0,
                    same b (λ z. fresh.0 (sym z)) fresh.1
                        ∙ e
                        ∙ ap (λ q. some (record { value = w; next = q })) at,
                    (fresh.0, Fresh-remove_first b value post fresh.1),
                    list,
                  ),
                ),
            (λ x ne f. same x (λ z. f.0 (sym z)) f.1),
            omega (arith, ap length (miss n), count),
          )
    ]
  where
    hit : eqb_ℤ c.1 value ≡ true → remove_first value (c ∷ post) ≡ post
    hit y = rw (y) refl

    miss : eqb_ℤ c.1 value ≡ false → remove_first value (c ∷ post) ≡ c ∷ remove_first value post
    miss y = rw (y) refl

remove_first_hit :
    (value : ℤ) (c : ℕ × ℤ) (cells : Cells)
    → eqb_ℤ c.1 value ≡ true
    → remove_first value (c ∷ cells) ≡ cells
unfolding remove_first
remove_first_hit value c cells y = rw (y) refl

remove_first_miss :
    (value : ℤ) (c : ℕ × ℤ) (cells : Cells)
    → eqb_ℤ c.1 value ≡ false
    → remove_first value (c ∷ cells) ≡ c ∷ remove_first value cells
unfolding remove_first
remove_first_miss value c cells y = rw (y) refl

-- `list_remove` ends, takes the first node of the value from the list, if there is one, and returns
-- how many nodes it took; it leaves every other address of the heap as it was.
pub list_remove-IsList :
    (heap : Heap) (head : ℕ) (v value : ℤ) (cells : Cells)
    → IsList heap (some head) ((head, v) ∷ cells)
    → (c : ℕ) × (heap' : Heap) × (headp : Option ℕ) × (list_remove
          (length cells + 2)
          heap
          head
          value
        ≡ some (c, heap', headp))
      × IsList heap' headp (remove_first value ((head, v) ∷ cells))
      × (c + length (remove_first value ((head, v) ∷ cells)) ≡ suc (length cells))
      × ((x : ℕ) → Fresh x ((head, v) ∷ cells) → heap' x ≡ heap x)
unfolding list_remove list_find find_loop
list_remove-IsList heap head v value cells (at, (next, e, fresh, l)) =
    elim (Bool-cases (eqb_ℤ v value)) [
      | inl y ↦ (
        1,
        free_node heap head,
        next,
        rw (e, y) refl,
        subst (IsList (free_node heap head) next) (sym (remove_first_hit value (head, v) cells y)) (
            IsList-frame heap (free_node heap head) next cells
              (Fresh-same heap head none cells fresh) l),
        omega (arith, ap length (remove_first_hit value (head, v) cells y)),
        λ x f. write-other heap head x none f.0,
      )
      | inr n ↦
          let (c, heap', run, list, same, count) =
            remove_behind heap head head v value cells next e fresh l in
          (
            c,
            heap',
            some head,
            rw (e, n)
                (ap (λ k. find_loop k heap value (some head) none >>= unlink heap head) fuel
                  ∙ rw (e, n) run),
            subst (IsList heap' (some head)) (sym (remove_first_miss value (head, v) cells n)) list,
            omega (arith, ap length (remove_first_miss value (head, v) cells n), count),
            λ x f. same x (λ z. f.0 (sym z)) f.1,
          )
    ]
  where
    fuel : length cells + 2 ≡ suc (suc (length cells))
    fuel = omega arith
