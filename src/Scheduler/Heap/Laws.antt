-- ===== src/Scheduler/Heap/Laws.antt =====
-- `Push`, `Pop` and `Remove` keep the heap in order, and its first entry is then the earliest.
use cronbat.Prelude.{
  ℕ, zero, suc, ◌-◌, ◌≤◌, ◌<◌, ◌≡◌, ◌≢◌, refl, sym, ap, inl, inr, Bool, List, [], ◌∷◌, ◌++◌, arith,
  ◌==◌, if◌then◌else◌, Bool-cases, length, get_elem?, take, length-append, length-take,
}
use cronbat.Scheduler.Heap.{Entry, swap, parent, up, down, without_last, push, pop, to_last, remove}
use cronbat.Scheduler.Heap.Counts.{length-swap, up_loop-Moves, down_loop-Moves}
use cronbat.Scheduler.Heap.Order.{due_of, key, IsHeap, IsHeapTo, key-swap_ne}
use cronbat.Scheduler.Heap.Hole.{Hole}
use cronbat.Scheduler.Heap.Rise.{up_loop-IsHeapTo}
use cronbat.Scheduler.Heap.Sink.{Sunk, down-Sunk, down_loop-IsHeapTo}

module _ {A : Type 0} where
  get_elem?-append_left :
      (xs ys : List A) (i : ℕ) → i < length xs → get_elem? (xs ++ ys) i ≡ get_elem? xs i
  get_elem?-append_left [] ys i lt = absurd (omega arith)
  get_elem?-append_left (x ∷ xs) ys zero lt = refl
  get_elem?-append_left (x ∷ xs) ys (suc i) lt = get_elem?-append_left xs ys i (omega arith)

  get_elem?-take : (n i : ℕ) (xs : List A) → i < n → get_elem? (take n xs) i ≡ get_elem? xs i
  get_elem?-take zero i xs lt = elim lt [ ]
  get_elem?-take (suc n) i [] lt = refl
  get_elem?-take (suc n) zero (x ∷ xs) lt = refl
  get_elem?-take (suc n) (suc i) (x ∷ xs) lt = get_elem?-take n i xs (omega arith)

-- The keys of a heap are in order from any two indices on one path; the root is least.
module _ (h : List Entry) (ordered : IsHeap h) where
  key-root : (fuel i : ℕ) → i < fuel → i < length h → key h 0 ≤ key h i
  key-root zero i enough lt = elim enough [ ]
  key-root (suc fuel) zero enough lt = omega arith
  key-root (suc fuel) (suc i) enough lt = omega (
    arith,
    key-root fuel (parent (suc i)) (omega arith) (omega arith),
    ordered (suc i) (omega arith) lt,
  )

  -- No entry of a heap is due before the first.
  pub root_least : (i : ℕ) → i < length h → key h 0 ≤ key h i
  root_least i lt = key-root (suc i) i (omega arith) lt

module _ (h : List Entry) (n : ℕ) (len : length h ≡ suc n) (ordered : IsHeapTo n h) where
  without_last-IsHeap : IsHeap (without_last h)
  without_last-IsHeap c pos lt =
      let lt' : c < n = omega (arith, length-take (length h - 1) h) in
      omega (
        arith,
        ordered c pos lt',
        ap due_of (get_elem?-take (length h - 1) c h (omega arith)),
        ap due_of (get_elem?-take (length h - 1) (parent c) h (omega arith)),
      )

module _ (e : Entry) (h : List Entry) (ordered : IsHeap h) where
  abbrev longer : List Entry
  longer = h ++ (e ∷ [])

  key-longer : (c : ℕ) → c < length h → key longer c ≡ key h c
  key-longer c lt = ap due_of (get_elem?-append_left h (e ∷ []) c lt)

  -- `heap.Push` keeps the order.
  pub push-IsHeap : IsHeap (push e h)
  unfolding push up
  push-IsHeap c pos lt =
      let long : length longer ≡ suc (length h) = omega (arith, length-append h (e ∷ [])) in
      let hole : Hole (suc (length h)) (key longer) (length h) = record {
        edges = λ c pos lt off far. omega (
          arith,
          ordered c pos (omega arith),
          key-longer c (omega arith),
          key-longer (parent c) (omega arith),
        );
        bridge = λ c p lt cpos e. absurd (omega arith);
      } in
      up_loop-IsHeapTo (suc (length h)) (length h) (suc (length h)) longer (omega arith)
        (omega arith) (omega arith) hole (λ c pos lt e. absurd (omega arith)) c pos
        (omega
          (arith, (up_loop-Moves (suc (length h)) (length h) (length h) longer (omega arith)).long))

-- The last entry and the one at `i` exchanged: below the end, only `i` may be out of order.
module _ (i n : ℕ) (h : List Entry) (len : length h ≡ suc n) (le : i ≤ n) (ordered : IsHeap h) where
  key-swapped : (c : ℕ) → c < n → c ≢ i → key (swap i n h) c ≡ key h c
  key-swapped c clt off =
      key-swap_ne h i n (omega arith) (omega arith) c (λ e. off (sym e)) (omega arith)

  length-swapped : length (swap i n h) ≡ suc n
  length-swapped = omega (arith, length-swap i n h)

  swapped-Hole : Hole n (key (swap i n h)) i
  swapped-Hole = record {
    edges = λ c pos clt off far. omega (
      arith,
      ordered c pos (omega arith),
      key-swapped c clt off,
      key-swapped (parent c) (omega arith) far,
    );
    bridge = λ c ipos clt cpos e. omega (
      arith,
      ordered c cpos (omega arith),
      ap (key h) e,
      ordered i ipos (omega arith),
      key-swapped c clt (omega arith),
      key-swapped (parent i) (omega arith) (omega arith),
    );
  }

  length-down : length (down i n (swap i n h)).0 ≡ suc n
  unfolding down
  length-down = omega (
    arith,
    (down_loop-Moves n i n n (swap i n h) (omega arith) (omega arith)).long,
    length-swapped,
  )

  length-up_swapped : length (up i (swap i n h)) ≡ suc n
  unfolding up
  length-up_swapped =
      omega (arith, (up_loop-Moves (suc i) i n (swap i n h) (omega arith)).long, length-swapped)

  finish-IsHeap :
      (lt : i < n) (r : List Entry × Bool)
      → Sunk i n (swap i n h) r
      → length r.0 ≡ suc n
      → IsHeap (without_last (if r.1 then r.0 else up i r.0))
  unfolding up
  finish-IsHeap lt _ (Sunk.moved h' done) l = without_last-IsHeap h' n l done
  finish-IsHeap lt _ (Sunk.stayed below) l =
      without_last-IsHeap _ n length-up_swapped (
        up_loop-IsHeapTo (suc i) i n (swap i n h) (omega arith) lt (omega arith) swapped-Hole below)

-- `heap.Remove` keeps the order.
pub remove-IsHeap : (i : ℕ) (h : List Entry) → i < length h → IsHeap h → IsHeap (remove i h)
unfolding remove to_last
remove-IsHeap i h lt ordered = elim (Bool-cases (length h - 1 == i)) [
  | inl last ↦ rw last (
      without_last-IsHeap h (length h - 1) (omega arith) (λ c pos clt. ordered c pos (omega arith)))
  | inr other ↦
      let n : ℕ = length h - 1 in
      let len : length h ≡ suc n = omega arith in
      let below : i < n = ground arith in
      rw other (
        finish-IsHeap i n h len (omega arith) ordered below (down i n (swap i n h))
          (down-Sunk i n (swap i n h) (omega (arith, length-swap i n h))
            (swapped-Hole i n h len (omega arith) ordered))
          (length-down i n h len (omega arith) ordered))
]

-- `heap.Pop` keeps the order.
pub pop-IsHeap : (h : List Entry) → 0 < length h → IsHeap h → IsHeap (pop h)
unfolding pop down
pop-IsHeap h some_entry ordered =
    let n : ℕ = length h - 1 in
    let len : length h ≡ suc n = omega arith in
    without_last-IsHeap _ n (length-down 0 n h len (omega arith) ordered) (
      down_loop-IsHeapTo n 0 n (swap 0 n h) (omega arith) (omega (arith, length-swap 0 n h))
        (swapped-Hole 0 n h len (omega arith) ordered) (λ pos. absurd (omega arith)))
