-- ===== src/Threadlab/Htable/Insert.antt =====
-- htable_insert of threadlab/htable.c, with the resize that it may call.
use cso_fall.Common.{
  ℕ, ◌+◌, ◌%◌, ◌≤◌, ◌≡◌, ◌≢◌, ◌⊎◌, inl, inr, refl, sym, ap, ◌∙◌, true, ◌&&◌, Option, none, some, [],
  ◌∷◌, ◌++◌, ℤ, leb, get_elem?, set, length, length-set, get_elem?-total, arith, Bool-cases,
  Option-cases,
}
use cso_fall.Common.Text.{CString}
use cso_fall.Threadlab.Hash.{hashcode}
use cso_fall.Threadlab.Htable.{
  Node, Chain, World, find, slot_of, num_locks, update, release_write, htable_insert, is_match,
  max_collision, blocked, insert_new, insert_found,
}
use cso_fall.Threadlab.Htable.Locks.{written, acquire_write-idle, written-released}
use cso_fall.Threadlab.Htable.Chain.{count, find-none, is_match-eq, is_match_refl, append-front}
use cso_fall.Threadlab.Htable.Buckets.{
  flatten, get-Placed, set-Placed, find-flatten, add-flatten, All-append,
}
use cso_fall.Threadlab.Htable.Resize.{Valid, view, htable_resize-total}
use cso_fall.Threadlab.Htable.Methods.{HasSlot, slot_of-HasSlot, with_locks}

module _ {ℓ} {V : Type ℓ} where
  -- What the new node does to the table.
  abbrev pub Gains : World V → World V → CString → V → Type ℓ
  Gains w w' k v = (view w' k ≡ some v) × ((k' : CString) → k' ≢ k → view w' k' ≡ view w k')

  abbrev pub node_of : CString → V → Node V
  node_of k v = record { hashcode = hashcode k; key = k; val = v }

  -- A table in which no node has the key gains one: no key is there twice.
  added :
      (w : World V) (k : CString) (v : V) (slot : ℕ) (chain : Chain V)
      → Valid w
      → slot_of (hashcode k) w.table.size ≡ some slot
      → get_elem? w.table.store slot ≡ some chain
      → view w k ≡ none
      → (h : ℤ) (k' : CString)
      → (find h k' (flatten (set w.table.store slot (chain ++ node_of k v ∷ [])))
          ≡ find h k' (node_of k v ∷ flatten w.table.store))
        × (count h k' (flatten (set w.table.store slot (chain ++ node_of k v ∷ []))) ≤ 1)
  unfolding count
  added w k v slot chain valid at get absent h k' =
      let n = node_of k v in
      let here =
        find-flatten w.table.size 0 slot (hashcode k) k w.table.store chain valid.placed
          (at ∙ ap some (omega arith)) get in
      let same : is_match h k' n ≡ true → (h ≡ hashcode k) × (k' ≡ k) =
        λ y. (sym (is_match-eq h k' n y).0, sym (is_match-eq h k' n y).1) in
      let (found, counted) =
        append-front h k' n chain (λ y. rw ((same y).0, (same y).1) (sym here ∙ absent)) in
      let one : count h k' (n ∷ flatten w.table.store) ≤ 1 = elim (Bool-cases (is_match h k' n)) [
        | inl y ↦
            rw (y, find-none h k' (flatten w.table.store) (rw ((same y).0, (same y).1) absent))
              (omega arith)
        | inr y ↦ rw (y) (omega (arith, valid.once h k'))
      ] in
      let (all, number) =
        add-flatten h k' n w.table.store slot chain (chain ++ n ∷ []) get found counted one in
      (all, omega (arith, number, one))

  with_node :
      (w : World V) (k : CString) (v : V) (slot : ℕ) (chain : Chain V)
      → Valid w
      → slot_of (hashcode k) w.table.size ≡ some slot
      → get_elem? w.table.store slot ≡ some chain
      → view w k ≡ none
      → let w' = record w {
        table = record w.table { store = set w.table.store slot (chain ++ node_of k v ∷ []) };
      } in
        Valid w' × Gains w w' k v
  unfolding find
  with_node w k v slot chain valid at get absent = (
    record {
      some_size = valid.some_size;
      sized = length-set w.table.store slot (chain ++ node_of k v ∷ []) ∙ valid.sized;
      placed =
          set-Placed w.table.size 0 slot w.table.store (chain ++ node_of k v ∷ []) valid.placed (
            All-append w.table.size (0 + slot) chain (node_of k v ∷ [])
              (get-Placed w.table.size 0 slot w.table.store chain valid.placed get)
              (at ∙ ap some (omega arith), tt));
      once = λ h k'. (added w k v slot chain valid at get absent h k').1;
      idle = valid.idle;
      mu_free = valid.mu_free;
      settled = valid.settled;
    },
    (
      (added w k v slot chain valid at get absent (hashcode k) k).0
          ∙ rw (is_match_refl (hashcode k) k v) refl,
      λ k' ne.
          (added w k v slot chain valid at get absent (hashcode k') k').0
          ∙ elim (Bool-cases (is_match (hashcode k') k' (node_of k v))) [
            | inl y ↦ absurd (ne (sym (is_match-eq (hashcode k') k' (node_of k v) y).1))
            | inr y ↦ rw (y) refl
          ],
    ),
  )

  -- The two outcomes of an insertion: 0 and the key's value added, or 1 and the table as it was.
  abbrev pub Inserted : World V → World V → CString → V → ℕ → Type ℓ
  Inserted w w' k v r =
      ((r ≡ 0) × (view w k ≡ none) × Gains w w' k v)
      ⊎ ((r ≡ 1) × ((old : V) × (view w k ≡ some old)) × (w'.table ≡ w.table))

  insert_new_lem :
      (w : World V) (k : CString) (v : V) (slot : ℕ) (chain : Chain V)
      → Valid w
      → slot_of (hashcode k) w.table.size ≡ some slot
      → get_elem? w.table.store slot ≡ some chain
      → view w k ≡ none
      → (w' : World V) × (insert_new
            (record w { rwl_slot = update w.rwl_slot (slot % num_locks) written })
            (hashcode k)
            k
            v
            slot
            chain
          ≡ some (0, w'))
        × Valid w'
        × Gains w w' k v
  unfolding insert_new
  insert_new_lem w k v slot chain valid at get absent =
      let i = slot % num_locks in
      let released = release_write (update w.rwl_slot i written) i in
      let free = with_locks w released valid (written-released w.rwl_slot i num_locks valid.idle) in
      let (valid', gains) =
        with_node (record w { rwl_slot = released }) k v slot chain free at get absent in
      let (w'', run, valid'', size, same) = htable_resize-total _ valid' in
      elim (Bool-cases (w.table.allow_resize && leb max_collision (length chain))) [
        | inl y ↦
            (w'', rw (y, run) refl, valid'', (same k ∙ gains.0, λ k' ne. same k' ∙ gains.1 k' ne))
        | inr y ↦ (_, rw (y) refl, valid', gains)
      ]

  InsertEnds : World V → CString → V → Option (ℕ × World V) → Type ℓ
  InsertEnds w k v o =
      (r : ℕ) × (w' : World V) × (o ≡ some (r, w')) × Valid w' × Inserted w w' k v r

  insert_as_found :
      (w : World V) (k : CString) (v : V) (slot : ℕ) (chain : Chain V)
      → Valid w
      → slot_of (hashcode k) w.table.size ≡ some slot
      → get_elem? w.table.store slot ≡ some chain
      → htable_insert w k v
        ≡ insert_found
            (record w { rwl_slot = update w.rwl_slot (slot % num_locks) written })
            (hashcode k)
            k
            v
            slot
            chain
            (find (hashcode k) k chain)
  unfolding htable_insert blocked
  insert_as_found w k v slot chain valid at get =
      let taken =
        acquire_write-idle w.rwl_slot (slot % num_locks)
          (valid.idle (slot % num_locks) (omega arith) (omega arith)) in
      rw (valid.settled, at, taken, get) refl

  insert_at :
      (w : World V) (k : CString) (v : V) (slot : ℕ) (chain : Chain V)
      → Valid w
      → slot_of (hashcode k) w.table.size ≡ some slot
      → get_elem? w.table.store slot ≡ some chain
      → InsertEnds w k v (htable_insert w k v)
  unfolding InsertEnds insert_found
  insert_at w k v slot chain valid at get =
      let i = slot % num_locks in
      let here =
        find-flatten w.table.size 0 slot (hashcode k) k w.table.store chain valid.placed
          (at ∙ ap some (omega arith)) get in
      let start = insert_as_found w k v slot chain valid at get in
      elim (Option-cases (find (hashcode k) k chain)) [
        | inl e ↦
            let (w', run, valid', gains) =
              insert_new_lem w k v slot chain valid at get (here ∙ e) in
            (
              0,
              w',
              start
                  ∙ ap
                      (insert_found (record w { rwl_slot = update w.rwl_slot i written })
                        (hashcode k) k v slot chain)
                      e
                  ∙ run,
              valid',
              inl (refl, here ∙ e, gains),
            )
        | inr (old, e) ↦ (
          1,
          record w { rwl_slot = release_write (update w.rwl_slot i written) i },
          start
              ∙ ap
                  (insert_found (record w { rwl_slot = update w.rwl_slot i written }) (hashcode k) k
                    v slot chain)
                  e,
          with_locks w (release_write (update w.rwl_slot i written) i) valid
              (written-released w.rwl_slot i num_locks valid.idle),
          inr (refl, (old, here ∙ e), refl),
        )
      ]

  -- An insertion into a valid table, of a key whose hash code is not negative, waits for nothing
  -- and ends, also where it resizes, in a valid table with every lock free. It returns 0 where the
  -- key was absent, and then the table holds the value under it and under every other key what it
  -- held; else it returns 1 and the table is as it was.
  pub htable_insert-Inserted :
      (w : World V) (k : CString) (v : V)
      → Valid w
      → HasSlot k
      → (r : ℕ) × (w' : World V) × (htable_insert w k v ≡ some (r, w'))
        × Valid w'
        × Inserted w w' k v r
  unfolding InsertEnds
  htable_insert-Inserted w k v valid has =
      let (slot, at, small) = slot_of-HasSlot k w.table.size has valid.some_size in
      let (chain, get) = get_elem?-total w.table.store slot (omega (arith, small, valid.sized)) in
      insert_at w k v slot chain valid at get
