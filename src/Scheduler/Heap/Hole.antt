-- ===== src/Scheduler/Heap/Hole.antt =====
-- A heap whose order one entry violates, and what an exchange of two entries does to the keys.
use cronbat.Prelude.{ℕ, ◌≤◌, ◌<◌, ◌≡◌, ◌≢◌, ap, inl, inr, List, arith, ◌==◌, Bool-cases, length}
use cronbat.Scheduler.Heap.{Entry, swap, parent}
use cronbat.Scheduler.Heap.Order.{key, key-swap_first, key-swap_second, key-swap_ne}

-- The keys below `n` are in order but around `i`, where parent and children of `i` are in order.
pub record Hole (n : ℕ) (k : ℕ → ℕ) (i : ℕ) : Type 0 where
  pub edges : (c : ℕ) → 0 < c → c < n → c ≢ i → parent c ≢ i → k (parent c) ≤ k c
  pub bridge : (c : ℕ) → 0 < i → c < n → 0 < c → parent c ≡ i → k (parent i) ≤ k c

-- The entry at `i` is not after its children.
abbrev pub Below : ℕ → (ℕ → ℕ) → ℕ → Type 0
Below n k i = (c : ℕ) → 0 < c → c < n → parent c ≡ i → k i ≤ k c

-- The entry at `i` is not before its parent.
abbrev pub Above : (ℕ → ℕ) → ℕ → Type 0
Above k i = 0 < i → k (parent i) ≤ k i

abbrev pub Ordered : ℕ → (ℕ → ℕ) → Type 0
Ordered n k = (c : ℕ) → 0 < c → c < n → k (parent c) ≤ k c

pub filled : (n i : ℕ) (k : ℕ → ℕ) → Hole n k i → Below n k i → Above k i → Ordered n k
filled n i k hole below above c pos lt = elim (Bool-cases (c == i)) [
  | inl at ↦
      let e : c ≡ i = ground arith in
      omega (arith, above (omega arith), ap k e, ap (λ x. k (parent x)) e)
  | inr off ↦ elim (Bool-cases (parent c == i)) [
    | inl at ↦ let e : parent c ≡ i = ground arith in omega (arith, below c pos lt e, ap k e)
    | inr far ↦ hole.edges c pos lt (ground arith) (ground arith)
  ]
]

-- The keys `k'` are those of `k` with two exchanged.
pub record Exchanged (i j : ℕ) (k k' : ℕ → ℕ) : Type 0 where
  pub first : k' i ≡ k j
  pub second : k' j ≡ k i
  pub rest : (c : ℕ) → i ≢ c → j ≢ c → k' c ≡ k c

pub swap-Exchanged :
    (i j : ℕ) (h : List Entry)
    → i < length h
    → j < length h
    → Exchanged i j (key h) (key (swap i j h))
swap-Exchanged i j h hi hj = record {
  first = key-swap_first h i j hi hj;
  second = key-swap_second h i j hi hj;
  rest = key-swap_ne h i j hi hj;
}
