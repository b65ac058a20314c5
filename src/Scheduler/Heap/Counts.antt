-- ===== src/Scheduler/Heap/Counts.antt =====
-- The heap operations only move entries: each leaves every entry as often as it was.
use cronbat.Prelude.{
  ℕ, zero, suc, ◌+◌, ◌*◌, ◌≤◌, ◌<◌, ◌≡◌, ◌≢◌, refl, ◌∙◌, inl, inr, Bool, true, false, not, ◌||◌,
  some, Option-cases, List, [], ◌∷◌, ◌++◌, arith, leb, ◌==◌, Bool-cases, length, get_elem?, set,
  get_elem?-set_self, get_elem?-set_ne, length-set,
}
use cronbat.Scheduler.Heap.{Entry, less, swap, parent, up_loop, smaller_child, down_loop}

abbrev pub one_if : Bool → ℕ
one_if true = 1
one_if false = 0

-- How many entries pass a test.
unfoldable pub count : (Entry → Bool) → List Entry → ℕ
count p [] = 0
count p (e ∷ es) = one_if (p e) + count p es

pub count-append :
    (p : Entry → Bool) (xs ys : List Entry) → count p (xs ++ ys) ≡ count p xs + count p ys
unfolding count
count-append p [] ys = omega arith
count-append p (x ∷ xs) ys = omega (arith, count-append p xs ys)

count-set :
    (p : Entry → Bool) (h : List Entry) (i : ℕ) (v x : Entry)
    → get_elem? h i ≡ some x
    → count p (set h i v) + one_if (p x) ≡ count p h + one_if (p v)
unfolding count
count-set p [] i v x e = absurd (cc)
count-set p (y ∷ h) zero v x e = ground arith
count-set p (y ∷ h) (suc i) v x e = omega (arith, count-set p h i v x e)

-- What stands at an index after a write to another, or the same.
pub read_after_write :
    (h : List Entry) (i j : ℕ) (x y : Entry)
    → get_elem? h i ≡ some x
    → get_elem? h j ≡ some y
    → get_elem? (set h i y) j ≡ some y
read_after_write h i j x y ei ej = elim (Bool-cases (i == j)) [
  | inl same ↦ ground (arith, get_elem?-set_self h i y x ei)
  | inr other ↦ ground (arith, get_elem?-set_ne h i j y)
]

pub count-swap : (p : Entry → Bool) (i j : ℕ) (h : List Entry) → count p (swap i j h) ≡ count p h
unfolding swap
count-swap p i j h = elim (Option-cases (get_elem? h i)) [
  | inl e ↦ rw e refl
  | inr (x, ei) ↦ elim (Option-cases (get_elem? h j)) [
    | inl e ↦ rw (ei, e) refl
    | inr (y, ej) ↦
        rw (ei, ej)
          (omega (
            arith,
            count-set p h i y x ei,
            count-set p (set h i y) j x y (read_after_write h i j x y ei ej),
          ))
  ]
]

pub length-swap : (i j : ℕ) (h : List Entry) → length (swap i j h) ≡ length h
unfolding swap
length-swap i j h = elim (Option-cases (get_elem? h i)) [
  | inl e ↦ rw e refl
  | inr (x, ei) ↦ elim (Option-cases (get_elem? h j)) [
    | inl e ↦ rw (ei, e) refl
    | inr (y, ej) ↦ rw (ei, ej) (length-set (set h i y) j x ∙ length-set h i y)
  ]
]

pub get_elem?-swap_ne :
    (i j k : ℕ) (h : List Entry) → i ≢ k → j ≢ k → get_elem? (swap i j h) k ≡ get_elem? h k
unfolding swap
get_elem?-swap_ne i j k h ni nj = elim (Option-cases (get_elem? h i)) [
  | inl e ↦ rw e refl
  | inr (x, ei) ↦ elim (Option-cases (get_elem? h j)) [
    | inl e ↦ rw (ei, e) refl
    | inr (y, ej) ↦
        rw (ei, ej) (get_elem?-set_ne (set h i y) j k x nj ∙ get_elem?-set_ne h i k y ni)
  ]
]

-- What `swap` puts at its second index is what stood at its first.
pub get_elem?-swap_second :
    (i j : ℕ) (h : List Entry) (x y : Entry)
    → get_elem? h i ≡ some x
    → get_elem? h j ≡ some y
    → get_elem? (swap i j h) j ≡ some x
unfolding swap
get_elem?-swap_second i j h x y ei ej =
    rw (ei, ej) (get_elem?-set_self (set h i y) j x y (read_after_write h i j x y ei ej))

-- ------------------------------------------------------------------ sifting

-- What both loops leave alone: the number of entries that pass any test, the length, and the
-- entries above `top`.
pub record Moves (top : ℕ) (h h' : List Entry) : Type 0 where
  pub counts : (p : Entry → Bool) → count p h' ≡ count p h
  pub long : length h' ≡ length h
  pub above : (k : ℕ) → top < k → get_elem? h' k ≡ get_elem? h k

Moves-refl : (top : ℕ) (h : List Entry) → Moves top h h
Moves-refl top h = record { counts = λ p. refl; long = refl; above = λ k lt. refl }

Moves-swap :
    (top i j : ℕ) (h h' : List Entry)
    → i ≤ top
    → j ≤ top
    → Moves top (swap i j h) h'
    → Moves top h h'
Moves-swap top i j h h' hi hj m = record {
  counts = λ p. m.counts p ∙ count-swap p i j h;
  long = m.long ∙ length-swap i j h;
  above = λ k lt. m.above k lt ∙ get_elem?-swap_ne i j k h (omega arith) (omega arith);
}

pub up_loop-Moves : (fuel j top : ℕ) (h : List Entry) → j ≤ top → Moves top h (up_loop fuel j h)
unfolding up_loop
up_loop-Moves zero j top h le = Moves-refl top h
up_loop-Moves (suc fuel) j top h le =
    elim (Bool-cases (parent j == j || not (less h j (parent j)))) [
      | inl stop ↦ rw stop (Moves-refl top h)
      | inr go ↦ rw go (
          Moves-swap top (parent j) j h _ (omega arith) le
            (up_loop-Moves fuel (parent j) top (swap (parent j) j h) (omega arith)))
    ]

pub down_loop-Moves :
    (fuel i n top : ℕ) (h : List Entry)
    → n ≤ suc top
    → i ≤ top
    → Moves top h (down_loop fuel i n h).0
unfolding down_loop
down_loop-Moves zero i n top h hn hi = Moves-refl top h
down_loop-Moves (suc fuel) i n top h hn hi =
    elim (Bool-cases (leb n (2 * i + 1) || not (less h (smaller_child i n h) i))) [
      | inl stop ↦ rw stop (Moves-refl top h)
      | inr go ↦ rw go (
          Moves-swap top i (smaller_child i n h) h _ hi (in_range go) (
            down_loop-Moves fuel (smaller_child i n h) n top (swap i (smaller_child i n h) h) hn
              (in_range go)))
    ]
  where
    in_range :
        (leb n (2 * i + 1) || not (less h (smaller_child i n h) i)) ≡ false
        → smaller_child i n h ≤ top
    in_range go = ground arith
