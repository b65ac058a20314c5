-- ===== src/Scheduler/Heap/Rise.antt =====
-- `up` restores the order of a heap that one entry violates.
use cronbat.Prelude.{
  ℕ, zero, suc, ◌≤◌, ◌<◌, ◌≡◌, ap, inl, inr, true, false, not, ◌||◌, List, arith, ◌==◌, Bool-cases,
  length,
}
use cronbat.Scheduler.Heap.{Entry, less, swap, parent, up_loop}
use cronbat.Scheduler.Heap.Counts.{length-swap}
use cronbat.Scheduler.Heap.Order.{key, IsHeapTo, less-key}
use cronbat.Scheduler.Heap.Hole.{Hole, Below, filled, Exchanged, swap-Exchanged}

module _ (n j : ℕ) (k k' : ℕ → ℕ) (x : Exchanged (parent j) j k k') (pos : 0 < j) (lt : j < n)
    (hole : Hole n k j) (below : Below n k j) (less_than : k j < k (parent j)) where
  -- One step of `up`
  risen-Below : Below n k' (parent j)
  risen-Below c cpos clt e = elim (Bool-cases (c == j)) [
    | inl at ↦ let e' : c ≡ j = ground arith in omega (arith, x.first, x.second, ap k' e')
    | inr off ↦ omega (
      arith,
      x.first,
      x.rest c (omega arith) (ground arith),
      hole.edges c cpos clt (ground arith) (omega arith),
      ap k e,
    )
  ]

  risen-Hole : Hole n k' (parent j)
  risen-Hole = record {
    edges = λ c cpos clt off far. elim (Bool-cases (parent c == j)) [
      | inl at ↦
          let e : parent c ≡ j = ground arith in
          omega (
            arith,
            ap k' e,
            x.second,
            x.rest c (omega arith) (omega arith),
            hole.bridge c pos clt cpos e,
          )
      | inr away ↦ elim (Bool-cases (c == j)) [
        | inl at ↦ let e' : c ≡ j = ground arith in absurd (far (ap parent e'))
        | inr off' ↦ omega (
          arith,
          x.rest c (ground arith) (ground arith),
          x.rest (parent c) (ground arith) (ground arith),
          hole.edges c cpos clt (ground arith) (ground arith),
        )
      ]
    ];
    bridge = λ c ppos clt cpos e. elim (Bool-cases (c == j)) [
      | inl at ↦
          let e' : c ≡ j = ground arith in
          omega (
            arith,
            ap k' e',
            x.second,
            x.rest (parent (parent j)) (omega arith) (omega arith),
            hole.edges (parent j) ppos (omega arith) (omega arith) (omega arith),
          )
      | inr off ↦ omega (
        arith,
        x.rest c (omega arith) (ground arith),
        x.rest (parent (parent j)) (omega arith) (omega arith),
        hole.edges (parent j) ppos (omega arith) (omega arith) (omega arith),
        hole.edges c cpos clt (ground arith) (omega arith),
        ap k e,
      )
    ];
  }

pub up_loop-IsHeapTo :
    (fuel j n : ℕ) (h : List Entry)
    → j < fuel
    → j < n
    → n ≤ length h
    → Hole n (key h) j
    → Below n (key h) j
    → IsHeapTo n (up_loop fuel j h)
unfolding up_loop
up_loop-IsHeapTo zero j n h enough lt le hole below = elim enough [ ]
up_loop-IsHeapTo (suc fuel) j n h enough lt le hole below =
    elim (Bool-cases (parent j == j || not (less h j (parent j)))) [
      | inl stop ↦ rw stop (filled n j (key h) hole below (λ pos. omega (arith, stays stop pos)))
      | inr go ↦ rw go (
          up_loop-IsHeapTo fuel (parent j) n (swap (parent j) j h) (omega (arith, rises go))
            (omega arith) (omega (arith, length-swap (parent j) j h))
            (risen-Hole n j (key h) _ x (rises go).0 lt hole below (rises go).1)
            (risen-Below n j (key h) _ x (rises go).0 lt hole below (rises go).1))
    ]
  where
    x : Exchanged (parent j) j (key h) (key (swap (parent j) j h))
    x = swap-Exchanged (parent j) j h (omega arith) (omega arith)

    stays : (parent j == j || not (less h j (parent j))) ≡ true → 0 < j → key h (parent j) ≤ key h j
    stays stop pos = ground (arith, less-key h j (parent j) (omega arith) (omega arith))

    rises :
        (parent j == j || not (less h j (parent j))) ≡ false
        → (0 < j) × (key h j < key h (parent j))
    rises go = (ground arith, ground (arith, less-key h j (parent j) (omega arith) (omega arith)))
