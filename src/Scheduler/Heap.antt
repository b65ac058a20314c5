-- ===== src/Scheduler/Heap.antt =====
-- Go's container/heap over the `entryHeap` of internal/scheduler/scheduler.go. Reads and swaps out
-- of range, which would panic in Go, do nothing here; the callers stay in range.
pub mod Counts
pub mod Contents
pub mod Order
pub mod Hole
pub mod Rise
pub mod Sink
pub mod Laws
use cronbat.Prelude.{
  ℕ, zero, suc, ◌+◌, ◌-◌, ◌*◌, ◌/◌, Bool, true, false, not, ◌&&◌, ◌||◌, Option, none, some, List,
  [], ◌∷◌, ◌++◌, ltb, leb, ◌==◌, if◌then◌else◌, length, get_elem?, set, take,
}
use cronbat.Text.{Text}

pub record Entry : Type 0 where
  pub job_name : Text
  pub schedule : ℕ → ℕ
  pub next_run : ℕ

-- `h[i].nextRun.Before(h[j].nextRun)`
abbrev earlier : Option Entry → Option Entry → Bool
earlier (some x) (some y) = ltb x.next_run y.next_run
earlier _ _ = false

unfoldable pub less : List Entry → ℕ → ℕ → Bool
less h i j = earlier (get_elem? h i) (get_elem? h j)

abbrev exchange : List Entry → ℕ → ℕ → Option Entry → Option Entry → List Entry
exchange h i j (some x) (some y) = set (set h i y) j x
exchange h i j _ _ = h

unfoldable pub swap : ℕ → ℕ → List Entry → List Entry
swap i j h = exchange h i j (get_elem? h i) (get_elem? h j)

abbrev pub parent : ℕ → ℕ
parent j = (j - 1) / 2

unfoldable pub up_loop : ℕ → ℕ → List Entry → List Entry
up_loop zero j h = h
up_loop (suc fuel) j h =
    let risen = up_loop fuel (parent j) (swap (parent j) j h) in
    if parent j == j || not (less h j (parent j)) then h else risen

-- At each step the index at least halves, so its own value bounds the steps.
unfoldable pub up : ℕ → List Entry → List Entry
unfolding up_loop
up j h = up_loop (suc j) j h

-- The smaller child below `n`; the right one only if it is smaller than the left.
abbrev pub smaller_child : ℕ → ℕ → List Entry → ℕ
smaller_child i n h =
    let left = 2 * i + 1 in if ltb (left + 1) n && less h (left + 1) left then left + 1 else left

-- The heap and the index where the entry came to rest.
unfoldable pub down_loop : ℕ → ℕ → ℕ → List Entry → List Entry × ℕ
down_loop zero i n h = (h, i)
down_loop (suc fuel) i n h =
    let j = smaller_child i n h in
    let sunk = down_loop fuel j n (swap i j h) in
    if leb n (2 * i + 1) || not (less h j i) then (h, i) else sunk

-- The index grows at each step and stays below `n`.
unfoldable pub down : ℕ → ℕ → List Entry → List Entry × Bool
unfolding down_loop
down i n h = let (h', i') = down_loop n i n h in (h', ltb i i')

-- `h.Pop`: all but the last entry
abbrev pub without_last : List Entry → List Entry
without_last h = take (length h - 1) h

unfoldable pub push : Entry → List Entry → List Entry
unfolding up
push e h = up (length h) (h ++ (e ∷ []))

unfoldable pub pop : List Entry → List Entry
unfolding down
pop h = let n = length h - 1 in without_last (down 0 n (swap 0 n h)).0

-- `heap.Remove` before its `h.Pop`: the entry at `i` is taken to the end.
to_last : ℕ → List Entry → List Entry
to_last i h =
    let n = length h - 1 in
    let (h', moved) = down i n (swap i n h) in if n == i then h else if moved then h' else up i h'

unfoldable pub remove : ℕ → List Entry → List Entry
unfolding to_last
remove i h = without_last (to_last i h)
