-- ===== src/Scheduler/Heap/Sink.antt =====
-- `down` restores the order of a heap that one entry violates, and what it answers.
use cronbat.Prelude.{
  ℕ, zero, suc, ◌+◌, ◌*◌, ◌≤◌, ◌<◌, ◌≡◌, sym, ap, inl, inr, Bool, true, false, not, ◌||◌, ◌&&◌,
  List, arith, ltb, leb, ◌==◌, Bool-cases, length,
}
use cronbat.Scheduler.Heap.{Entry, less, swap, parent, down, down_loop, smaller_child}
use cronbat.Scheduler.Heap.Counts.{length-swap}
use cronbat.Scheduler.Heap.Order.{key, IsHeapTo, less-key}
use cronbat.Scheduler.Heap.Hole.{Hole, Below, Above, filled, Exchanged, swap-Exchanged}

-- The smaller child is a child, and no other child is before it.
module _ (i n : ℕ) (h : List Entry) (le : n ≤ length h) (has : 2 * i + 1 < n) where
  smaller_child_range :
      (smaller_child i n h < n) × (i < smaller_child i n h) × (parent (smaller_child i n h) ≡ i)
  smaller_child_range = (ground arith, ground arith, ground arith)

  smaller_child_least :
      (c : ℕ) → 0 < c → c < n → parent c ≡ i → key h (smaller_child i n h) ≤ key h c
  smaller_child_least c pos lt e = elim (Bool-cases (c == 2 * i + 1 + 1)) [
    | inl at ↦
        let e' : c ≡ 2 * i + 1 + 1 = ground arith in
        ground
          (arith, ap (key h) e', less-key h (2 * i + 1 + 1) (2 * i + 1) (omega arith) (omega arith))
    | inr off ↦
        let e' : c ≡ 2 * i + 1 = ground arith in
        elim (Bool-cases (ltb (2 * i + 1 + 1) n && less h (2 * i + 1 + 1) (2 * i + 1))) [
          | inl right ↦ rw right (omega (arith, ap (key h) e', earlier_right right))
          | inr left ↦ rw left (omega (arith, ap (key h) e'))
        ]
  ]
    where
      earlier_right :
          (ltb (2 * i + 1 + 1) n && less h (2 * i + 1 + 1) (2 * i + 1)) ≡ true
          → key h (2 * i + 1 + 1) < key h (2 * i + 1)
      earlier_right right =
          ground (arith, less-key h (2 * i + 1 + 1) (2 * i + 1) (ground arith) (omega arith))

module _ (n i j : ℕ) (k k' : ℕ → ℕ) (x : Exchanged i j k k') (lt : j < n) (pos : 0 < j)
    (up_to : parent j ≡ i) (hole : Hole n k i) (less_than : k j < k i)
    (least : (c : ℕ) → 0 < c → c < n → parent c ≡ i → k j ≤ k c) where
  -- One step of `down`
  sunk-Above : Above k' j
  sunk-Above p = omega (arith, ap k' up_to, x.first, x.second)

  sunk-Hole : Hole n k' j
  sunk-Hole = record {
    edges = λ c cpos clt off far. elim (Bool-cases (parent c == i)) [
      | inl at ↦
          let e : parent c ≡ i = ground arith in
          omega (
            arith,
            ap k' e,
            x.first,
            x.rest c (omega arith) (λ e'. off (sym e')),
            least c cpos clt e,
          )
      | inr away ↦ elim (Bool-cases (c == i)) [
        | inl at ↦
            let e : c ≡ i = ground arith in
            omega (
              arith,
              ap k' e,
              ap (λ y. k' (parent y)) e,
              x.first,
              x.rest (parent i) (omega arith) (omega arith),
              hole.bridge j (omega arith) lt pos up_to,
            )
        | inr off' ↦ omega (
          arith,
          x.rest c (ground arith) (λ e'. off (sym e')),
          x.rest (parent c) (ground arith) (λ e'. far (sym e')),
          hole.edges c cpos clt (ground arith) (ground arith),
        )
      ]
    ];
    bridge = λ c jpos clt cpos e. omega (
      arith,
      ap k' up_to,
      x.first,
      x.rest c (omega arith) (omega arith),
      hole.edges c cpos clt (omega arith) (omega arith),
      ap k e,
    );
  }

-- Why `down` stops: no child is before the entry.
module _ (i n : ℕ) (h : List Entry) (le : n ≤ length h) where
  stopped-Below :
      (leb n (2 * i + 1) || not (less h (smaller_child i n h) i)) ≡ true → Below n (key h) i
  stopped-Below stop c pos lt e =
      let has : 2 * i + 1 < n = omega arith in
      let (j_lt, j_gt, j_up) = smaller_child_range i n h le has in
      let not_less : not (less h (smaller_child i n h) i) ≡ true = ground (arith, has) in
      ground (
        arith,
        not_less,
        less-key h (smaller_child i n h) i (omega arith) (omega arith),
        smaller_child_least i n h le has c pos lt e,
      )

  module _ (go : (leb n (2 * i + 1) || not (less h (smaller_child i n h) i)) ≡ false) where
    abbrev pub j : ℕ
    j = smaller_child i n h

    goes : (2 * i + 1 < n) × (less h j i ≡ true)
    goes = (ground arith, ground arith)

    goes_range : (j < n) × (i < j) × (parent j ≡ i)
    goes_range = smaller_child_range i n h le goes.0

    goes_less : key h j < key h i
    goes_less =
        let (j_lt, j_gt, j_up) = goes_range in
        let is : less h j i ≡ true = goes.1 in
        ground (arith, is, less-key h j i (omega arith) (omega arith))

    goes-Exchanged : Exchanged i j (key h) (key (swap i j h))
    goes-Exchanged =
        let (j_lt, j_gt, j_up) = goes_range in swap-Exchanged i j h (omega arith) (omega arith)

    goes_on : Hole n (key h) i → Hole n (key (swap i j h)) j × Above (key (swap i j h)) j
    goes_on hole =
        let (j_lt, j_gt, j_up) = goes_range in
        (
          sunk-Hole n i j (key h) _ goes-Exchanged j_lt (omega arith) j_up hole goes_less
              (smaller_child_least i n h le goes.0),
          sunk-Above n i j (key h) _ goes-Exchanged j_lt (omega arith) j_up hole goes_less
              (smaller_child_least i n h le goes.0),
        )

pub down_loop-IsHeapTo :
    (fuel i n : ℕ) (h : List Entry)
    → n ≤ fuel + i
    → n ≤ length h
    → Hole n (key h) i
    → Above (key h) i
    → IsHeapTo n (down_loop fuel i n h).0
unfolding down_loop
down_loop-IsHeapTo zero i n h enough le hole above =
    filled n i (key h) hole (λ c pos lt e. absurd (omega arith)) above
down_loop-IsHeapTo (suc fuel) i n h enough le hole above =
    elim (Bool-cases (leb n (2 * i + 1) || not (less h (smaller_child i n h) i))) [
      | inl stop ↦ rw stop (filled n i (key h) hole (stopped-Below i n h le stop) above)
      | inr go ↦
          let (j_lt, j_gt, j_up) = goes_range i n h le go in
          let (hole', above') = goes_on i n h le go hole in
          rw go (
            down_loop-IsHeapTo fuel (smaller_child i n h) n (swap i (smaller_child i n h) h)
              (omega arith) (omega (arith, length-swap i (smaller_child i n h) h)) hole' above')
    ]

down_loop-le : (fuel i n : ℕ) (h : List Entry) → n ≤ length h → i ≤ (down_loop fuel i n h).1
unfolding down_loop
down_loop-le zero i n h le = omega arith
down_loop-le (suc fuel) i n h le =
    elim (Bool-cases (leb n (2 * i + 1) || not (less h (smaller_child i n h) i))) [
      | inl stop ↦ rw stop (omega arith)
      | inr go ↦
          let (j_lt, j_gt, j_up) = goes_range i n h le go in
          rw go (
            omega (
              arith,
              down_loop-le fuel (smaller_child i n h) n (swap i (smaller_child i n h) h)
                  (omega (arith, length-swap i (smaller_child i n h) h)),
            ))
    ]

-- What `down` leaves of a hole: nothing has moved and the entry is not after its children, or all
-- is in order.
pub data Sunk (i n : ℕ) (h : List Entry) : List Entry × Bool → Type 0 where
  stayed : Below n (key h) i → Sunk i n h (h, false)
  moved : (h' : List Entry) → IsHeapTo n h' → Sunk i n h (h', true)

module _ (i n : ℕ) (h : List Entry) where
  stayed_if : (b : Bool) → b ≡ false → Below n (key h) i → Sunk i n h (h, b)
  stayed_if false e below = Sunk.stayed below
  stayed_if true e below = absurd (cc)

  moved_if : (h' : List Entry) (b : Bool) → b ≡ true → IsHeapTo n h' → Sunk i n h (h', b)
  moved_if h' true e ordered = Sunk.moved h' ordered
  moved_if h' false e ordered = absurd (cc)

pub down-Sunk :
    (i n : ℕ) (h : List Entry) → n ≤ length h → Hole n (key h) i → Sunk i n h (down i n h)
unfolding down down_loop
down-Sunk i zero h le hole =
    stayed_if i 0 h (ltb i i) (ground arith) (λ c pos lt e. absurd (omega arith))
down-Sunk i (suc n) h le hole =
    elim (Bool-cases (leb (suc n) (2 * i + 1) || not (less h (smaller_child i (suc n) h) i))) [
      | inl stop ↦
          rw stop
            (stayed_if i (suc n) h (ltb i i) (ground arith) (stopped-Below i (suc n) h le stop))
      | inr go ↦
          let (j_lt, j_gt, j_up) = goes_range i (suc n) h le go in
          let (hole', above') = goes_on i (suc n) h le go hole in
          let child : ℕ = smaller_child i (suc n) h in
          let le' : suc n ≤ length (swap i child h) = omega (arith, length-swap i child h) in
          rw go (
            moved_if i (suc n) h _ _
              (ground (arith, down_loop-le n child (suc n) (swap i child h) le'))
              (down_loop-IsHeapTo n child (suc n) (swap i child h) (omega arith) le' hole' above'))
    ]
