-- ===== src/Runner/RingBuffer/Wrap.antt =====
-- One wrapped copy, seen through the rotation that `String` applies to a full buffer.
use cronbat.Prelude.{
  ℕ, ◌+◌, ◌-◌, ◌%◌, ◌≤◌, ◌<◌, ◌≡◌, refl, ◌∙◌, ap, ap₂, sym, true, false, List, [], ◌++◌, append-nil,
  append_assoc, arith, leb, length, take, drop, length-append, length-take, length-drop,
  take-append-drop, take_all, drop_all, drop_left, take_left, drop-append_le, drop-append_ge,
  drop_eq,
}
use cronbat.Runner.RingBuffer.{copy_at, copy_wrapped}
use native.Mathlib.Nat.{mod_self, mod-eq_of_lt, mod-eq-sub-mod}
use native.Mathlib.Decide.{dec_lt}

-- oldest bytes first
abbrev pub rotated : List ℕ → ℕ → List ℕ
rotated buf pos = drop pos buf ++ take pos buf

-- A buffer cut at `pos` is the two parts that `rotated` swaps.
rotated-append : (xs ys : List ℕ) (n : ℕ) → n ≡ length xs → rotated (xs ++ ys) n ≡ ys ++ xs
rotated-append xs ys n e = ap₂ ◌++◌ (drop_left n xs ys e) (take_left n xs ys e)

-- `copy` at the end of the first part overwrites the start of the second.
copy_at-append :
    (a b p : List ℕ)
    → length p ≤ length b
    → copy_at (a ++ b) (length a) p ≡ a ++ (p ++ drop (length p) b)
unfolding copy_at
copy_at-append a b p h = ap₂ ◌++◌ (take_left (length a) a b refl) (
    ap₂ ◌++◌ (take_all (length (a ++ b) - length a) p (omega (arith, length-append a b)))
      (drop-append_ge (length a + length p) (length p) a b refl))

pub copy_at_start : (x p : List ℕ) → length p ≤ length x → copy_at x 0 p ≡ p ++ drop (length p) x
unfolding copy_at
copy_at_start x p h =
    ap₂ ◌++◌ (take_all (length x - 0) p (omega arith))
      (drop_eq (0 + length p) (length p) x (omega arith))

module _ (a b p : List ℕ) where
  abbrev n : ℕ
  n = length p

  abbrev size : ℕ
  size = length a + length b

  -- The write fits before the end of the buffer.
  copy_wrapped_fits : n ≤ length b → copy_wrapped (a ++ b) size (length a) p ≡ a ++ (p ++ drop n b)
  unfolding copy_wrapped
  copy_wrapped_fits h =
      let e : leb n (size - length a) ≡ true = ground arith in rw e (copy_at-append a b p h)

  -- The write goes round the end: its head fills up the second part, its tail starts over.
  copy_wrapped_round :
      length b < n
      → n < size
      → copy_wrapped (a ++ b) size (length a) p
        ≡ drop (length b) p ++ (drop (n - length b) a ++ take (length b) p)
  unfolding copy_wrapped
  copy_wrapped_round over small =
      let e : leb n (size - length a) ≡ false = ground arith in
      let first : size - length a ≡ length b = omega arith in
      let head : length (take (length b) p) ≡ length b = omega (arith, length-take (length b) p) in
      let rest : length (drop (length b) p) ≡ n - length b = length-drop (length b) p in
      rw (e, first, copy_at-append a b (take (length b) p) (omega arith))
        (rw (head, drop_all (length b) b (omega arith), append-nil)
          (copy_at_start (a ++ take (length b) p) (drop (length b) p)
              (omega (arith, length-append a (take (length b) p)))
            ∙ rw rest (
                ap (◌++◌ (drop (length b) p))
                  (drop-append_le (n - length b) a (take (length b) p) (omega arith)))))

  abbrev pos' : ℕ
  pos' = (length a + n) % size

  rotated_fits_strictly :
      n < length b → rotated (copy_wrapped (a ++ b) size (length a) p) pos' ≡ drop n (b ++ a) ++ p
  rotated_fits_strictly h =
      let pos : pos' ≡ length a + n = mod-eq_of_lt {n = length a + n} {m = size} (omega arith) in
      rw (copy_wrapped_fits (omega arith), pos, ← append_assoc a p (drop n b))
        (rotated-append (a ++ p) (drop n b) (length a + n) (omega (arith, length-append a p))
          ∙ rw (drop-append_le n b a (omega arith)) (sym (append_assoc (drop n b) a p)))

  rotated_fits_exactly :
      n ≡ length b
      → 0 < size
      → rotated (copy_wrapped (a ++ b) size (length a) p) pos' ≡ drop n (b ++ a) ++ p
  rotated_fits_exactly h some_room =
      let total : length a + n ≡ size = omega arith in
      let pos : pos' ≡ 0 = ap (λ k. k % size) total ∙ mod_self size in
      rw (copy_wrapped_fits (omega arith), pos, drop_all n b (omega arith), drop_left n b a h)
        (append-nil (a ++ (p ++ [])) ∙ ap (◌++◌ a) (append-nil p))

  rotated_round :
      length b < n
      → n < size
      → rotated (copy_wrapped (a ++ b) size (length a) p) pos' ≡ drop n (b ++ a) ++ p
  rotated_round over small =
      let pos : pos' ≡ n - length b =
        mod-eq-sub-mod {n = length a + n} {m = size} (omega arith)
        ∙ mod-eq_of_lt {n = length a + n - size} {m = size} (omega arith)
        ∙ omega arith in
      rw (copy_wrapped_round over small, pos, drop-append_ge n (n - length b) b a (omega arith))
        (rotated-append (drop (length b) p) (drop (n - length b) a ++ take (length b) p)
            (n - length b) (omega (arith, length-drop (length b) p))
          ∙ (append_assoc (drop (n - length b) a) (take (length b) p) (drop (length b) p)
              ∙ ap (◌++◌ (drop (n - length b) a)) (take-append-drop (length b) p)))

  -- Through the rotation, a write shorter than the buffer drops as many of the oldest bytes as it
  -- has, and appends its own.
  pub rotated-copy_wrapped :
      n < size → rotated (copy_wrapped (a ++ b) size (length a) p) pos' ≡ drop n (b ++ a) ++ p
  rotated-copy_wrapped small = elim (dec_lt n (length b)) [
    | yes h ↦ rotated_fits_strictly h
    | no h ↦ elim (dec_lt (length b) n) [
      | yes over ↦ rotated_round over small
      | no under ↦ rotated_fits_exactly (omega arith) (omega arith)
    ]
  ]

  take-copy_wrapped :
      n < length b → take (length a + n) (copy_wrapped (a ++ b) size (length a) p) ≡ a ++ p
  take-copy_wrapped h =
      rw (copy_wrapped_fits (omega arith), ← append_assoc a p (drop n b))
        (take_left (length a + n) (a ++ p) (drop n b) (omega (arith, length-append a p)))

pub length-copy_at :
    (dst : List ℕ) (at : ℕ) (src : List ℕ)
    → at ≤ length dst
    → length (copy_at dst at src) ≡ length dst
unfolding copy_at
length-copy_at dst at src h = omega (
  arith,
  length-append (take at dst) (take (length dst - at) src ++ drop (at + length src) dst),
  length-append (take (length dst - at) src) (drop (at + length src) dst),
  length-take at dst,
  length-take (length dst - at) src,
  length-drop (at + length src) dst,
)

-- The two facts above about a buffer that is not yet cut at its position.
module _ (buf : List ℕ) (pos : ℕ) (p : List ℕ) (inside : pos < length buf) where
  cut : length (take pos buf) + length (drop pos buf) ≡ length buf
  cut = omega (arith, length-take pos buf, length-drop pos buf)

  length-front : length (take pos buf) ≡ pos
  length-front = omega (arith, length-take pos buf)

  pub rotated-write :
      length p < length buf
      → rotated (copy_wrapped buf (length buf) pos p) ((pos + length p) % length buf)
        ≡ drop (length p) (rotated buf pos) ++ p
  rotated-write small =
      rw (take-append-drop pos buf, cut, length-front) at
        (rotated-copy_wrapped (take pos buf) (drop pos buf) p (omega (arith, cut)))

  pub take-write :
      pos + length p < length buf
      → take (pos + length p) (copy_wrapped buf (length buf) pos p) ≡ take pos buf ++ p
  take-write small =
      rw (take-append-drop pos buf, cut, length-front) at
        (take-copy_wrapped (take pos buf) (drop pos buf) p (omega (arith, length-drop pos buf)))

  pub length-write : length (copy_wrapped buf (length buf) pos p) ≡ length buf
  unfolding copy_wrapped
  length-write = ground (
    arith,
    length-copy_at buf pos p,
    length-copy_at buf pos (take (length buf - pos) p),
    length-copy_at (copy_at buf pos (take (length buf - pos) p)) 0 (drop (length buf - pos) p),
  )
