-- ===== src/Scheduler/Heap/Order.antt =====
-- The order of the heap: no entry is due before its parent.
use cronbat.Prelude.{
  ℕ, ◌≤◌, ◌<◌, ◌≡◌, ◌≢◌, refl, sym, ap, ◌∙◌, inl, inr, Option, none, some, List, arith, ltb, ◌==◌,
  Bool-cases, length, get_elem?, set, get_elem?-some, get_elem?-set_self, get_elem?-set_ne,
}
use cronbat.Scheduler.Heap.{Entry, less, swap, parent}
use cronbat.Scheduler.Heap.Counts.{get_elem?-swap_ne, get_elem?-swap_second}

abbrev pub due_of : Option Entry → ℕ
due_of none = 0
due_of (some e) = e.next_run

-- The time of the entry at an index
abbrev pub key : List Entry → ℕ → ℕ
key h i = due_of (get_elem? h i)

-- The edges to the entries below `n` are in order.
abbrev pub IsHeapTo : ℕ → List Entry → Type 0
IsHeapTo n h = (c : ℕ) → 0 < c → c < n → key h (parent c) ≤ key h c

abbrev pub IsHeap : List Entry → Type 0
IsHeap h = IsHeapTo (length h) h

module _ (h : List Entry) (i j : ℕ) (hi : i < length h) (hj : j < length h) where
  pub less-key : less h i j ≡ ltb (key h i) (key h j)
  unfolding less
  less-key =
      let (x, ei) = get_elem?-some h i hi in let (y, ej) = get_elem?-some h j hj in rw (ei, ej) refl

  pub key-swap_second : key (swap i j h) j ≡ key h i
  key-swap_second =
      let (x, ei) = get_elem?-some h i hi in
      let (y, ej) = get_elem?-some h j hj in rw (get_elem?-swap_second i j h x y ei ej, ei) refl

  pub key-swap_first : key (swap i j h) i ≡ key h j
  unfolding swap
  key-swap_first =
      let (x, ei) = get_elem?-some h i hi in
      let (y, ej) = get_elem?-some h j hj in
      elim (Bool-cases (j == i)) [
        | inl same ↦
            let e : j ≡ i = ground arith in
            ap (key (swap i j h)) (sym e) ∙ key-swap_second ∙ ap (key h) (sym e)
        | inr other ↦
            rw (ei, ej)
              (ap due_of
                (get_elem?-set_ne (set h i y) j i x (ground arith) ∙ get_elem?-set_self h i y x ei))
      ]

  pub key-swap_ne : (k : ℕ) → i ≢ k → j ≢ k → key (swap i j h) k ≡ key h k
  key-swap_ne k ni nj = ap due_of (get_elem?-swap_ne i j k h ni nj)
