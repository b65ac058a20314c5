-- ===== src/Scheduler/Heap/Contents.antt =====
-- What `push`, `pop` and `remove` add to a heap and take from it.
use cronbat.Prelude.{
  ℕ, zero, suc, ◌+◌, ◌-◌, ◌<◌, ◌≡◌, refl, ◌∙◌, inl, inr, Bool, false, some, List, [], ◌∷◌, ◌++◌,
  arith, ◌==◌, Bool-cases, length, get_elem?, take, get_elem?-some, lt_of_get_elem?,
}
use cronbat.Scheduler.Heap.{
  Entry, swap, up, down_loop, down, without_last, push, pop, to_last, remove,
}
use cronbat.Scheduler.Heap.Counts.{
  one_if, count, count-append, count-swap, length-swap, get_elem?-swap_second, Moves, up_loop-Moves,
  down_loop-Moves,
}

count-take_last :
    (p : Entry → Bool) (n : ℕ) (h : List Entry) (x : Entry)
    → length h ≡ suc n
    → get_elem? h n ≡ some x
    → count p (take n h) + one_if (p x) ≡ count p h
unfolding count
count-take_last p zero [] x l e = absurd (omega arith)
count-take_last p zero (y ∷ []) x l e = ground arith
count-take_last p zero (y ∷ z ∷ h) x l e = absurd (omega arith)
count-take_last p (suc n) [] x l e = absurd (omega arith)
count-take_last p (suc n) (y ∷ h) x l e = omega (arith, count-take_last p n h x (omega arith) e)

count-without_last :
    (p : Entry → Bool) (n : ℕ) (h : List Entry) (x : Entry)
    → length h ≡ suc n
    → get_elem? h n ≡ some x
    → count p (without_last h) + one_if (p x) ≡ count p h
count-without_last p n h x l e =
    let n' : length h - 1 ≡ n = omega arith in rw n' (count-take_last p n h x l e)

-- The entry at `i` goes to the end, by the exchange and the sifting that follows.
down-Moves :
    (i n : ℕ) (h : List Entry) → i < n → Moves (n - 1) (swap i n h) (down i n (swap i n h)).0
unfolding down
down-Moves i n h lt = down_loop-Moves n i n (n - 1) (swap i n h) (omega arith) (omega arith)

module _ (h : List Entry) (n i : ℕ) (x : Entry) (l : length h ≡ suc n)
    (e : get_elem? h i ≡ some x) where
  last_swapped : get_elem? (swap i n h) n ≡ some x
  last_swapped =
      let (y, ey) = get_elem?-some h n (omega arith) in get_elem?-swap_second i n h x y e ey

  down_last : i < n → get_elem? (down i n (swap i n h)).0 n ≡ some x
  down_last lt = (down-Moves i n h lt).above n (omega arith) ∙ last_swapped

  count-down : i < n → (p : Entry → Bool) → count p (down i n (swap i n h)).0 ≡ count p h
  count-down lt p = (down-Moves i n h lt).counts p ∙ count-swap p i n h

  length-down : i < n → length (down i n (swap i n h)).0 ≡ suc n
  length-down lt = (down-Moves i n h lt).long ∙ length-swap i n h ∙ l

  up-Moves : i < n → Moves (n - 1) (down i n (swap i n h)).0 (up i (down i n (swap i n h)).0)
  unfolding up
  up-Moves lt = up_loop-Moves (suc i) i (n - 1) (down i n (swap i n h)).0 (omega arith)

  -- `to_last` keeps the entries and puts `x` at the end.
  record Carried (h' : List Entry) : Type 0 where
    counts : (p : Entry → Bool) → count p h' ≡ count p h
    long : length h' ≡ suc n
    last : get_elem? h' n ≡ some x

  stays-Carried : n ≡ i → Carried h
  stays-Carried same = record { counts = λ p. refl; long = l; last = rw same e }

  sunk-Carried : i < n → Carried (down i n (swap i n h)).0
  sunk-Carried lt = record { counts = count-down lt; long = length-down lt; last = down_last lt }

  risen-Carried : i < n → Carried (up i (down i n (swap i n h)).0)
  risen-Carried lt = record {
    counts = λ p. (up-Moves lt).counts p ∙ count-down lt p;
    long = (up-Moves lt).long ∙ length-down lt;
    last = (up-Moves lt).above n (omega arith) ∙ down_last lt;
  }

  to_last-Carried : Carried (to_last i h)
  unfolding to_last
  to_last-Carried =
      let top : length h - 1 ≡ n = omega arith in
      rw top (elim (Bool-cases (n == i)) [
        | inl same ↦ rw same (stays-Carried (ground arith))
        | inr other ↦ rw other (elim (Bool-cases (down i n (swap i n h)).1) [
          | inl moved ↦ rw moved (sunk-Carried (below other))
          | inr still ↦ rw still (risen-Carried (below other))
        ])
      ])
    where
      below : (n == i) ≡ false → i < n
      below other = ground (arith, lt_of_get_elem? h i x e)

  count-remove_sized : (p : Entry → Bool) → count p (remove i h) + one_if (p x) ≡ count p h
  unfolding remove
  count-remove_sized p =
      count-without_last p n (to_last i h) x to_last-Carried.long to_last-Carried.last
      ∙ to_last-Carried.counts p

-- `heap.Remove` takes away exactly the entry at its index.
pub count-remove :
    (h : List Entry) (i : ℕ) (x : Entry)
    → get_elem? h i ≡ some x
    → (p : Entry → Bool) → count p (remove i h) + one_if (p x) ≡ count p h
count-remove h i x e p =
    count-remove_sized h (length h - 1) i x (omega (arith, lt_of_get_elem? h i x e)) e p

pub count-push :
    (p : Entry → Bool) (e : Entry) (h : List Entry) → count p (push e h) ≡ count p h + one_if (p e)
unfolding push up count
count-push p e h =
    (up_loop-Moves (suc (length h)) (length h) (length h) (h ++ (e ∷ [])) (omega arith)).counts p
    ∙ omega (arith, count-append p h (e ∷ []))

sunk_root :
    (h : List Entry) (n : ℕ) (x : Entry) (l : length h ≡ suc n) (e : get_elem? h 0 ≡ some x)
    → Carried h n 0 x l e (down 0 n (swap 0 n h)).0
unfolding down down_loop
sunk_root h zero x l e = record {
  counts = λ p. count-swap p 0 0 h;
  long = length-swap 0 0 h ∙ l;
  last = last_swapped h 0 0 x l e;
}
sunk_root h (suc n) x l e = sunk-Carried h (suc n) 0 x l e (omega arith)

-- `heap.Pop` takes away exactly the root.
pub count-pop :
    (p : Entry → Bool) (e : Entry) (es : List Entry)
    → count p (pop (e ∷ es)) + one_if (p e) ≡ count p (e ∷ es)
unfolding pop
count-pop p e es =
    let top : length (e ∷ es) - 1 ≡ length es = omega arith in
    let carried = sunk_root (e ∷ es) (length es) e refl refl in
    rw top (
      count-without_last p (length es) (down 0 (length es) (swap 0 (length es) (e ∷ es))).0 e
        carried.long carried.last
      ∙ carried.counts p)
