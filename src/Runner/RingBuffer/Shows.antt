-- ===== src/Runner/RingBuffer/Shows.antt =====
-- One write to a ring buffer keeps it showing the last `size` bytes written.
use cronbat.Prelude.{
  ℕ, ◌+◌, ◌-◌, ◌%◌, ◌≤◌, ◌<◌, ◌≡◌, refl, ◌∙◌, ap, sym, not, ◌&&◌, true, false, List, [], ◌++◌,
  append-nil, arith, leb, length, take, drop, length-append, length-drop, if◌then◌else◌, drop_all,
  drop_zero, drop-append_le, drop-append_ge, drop_eq, drop-drop, length-replicate,
}
use cronbat.Runner.RingBuffer.{RingBuffer, new_ring_buffer, copy_at, copy_wrapped, write, contents}
use cronbat.Runner.RingBuffer.Wrap.{rotated, rotated-write, take-write, length-write, copy_at_start}
use native.Mathlib.Nat.{mod-lt, mod-eq_of_lt, mod-eq-sub-mod}
use native.Mathlib.Decide.{dec_lt}

-- The last `size` bytes of a history.
abbrev pub recent : ℕ → List ℕ → List ℕ
recent size hist = drop (length hist - size) hist

-- What a buffer shows of the bytes written so far: all of them, or, once full, the last `size`.
pub data Shows (rb : RingBuffer) (hist : List ℕ) : Type 0 where
  all : rb.full ≡ false → rb.pos ≡ length hist → take rb.pos rb.buf ≡ hist → Shows rb hist
  last :
      rb.full ≡ true
      → rb.size ≤ length hist
      → rotated rb.buf rb.pos ≡ recent rb.size hist
      → Shows rb hist

pub record Holds (rb : RingBuffer) (hist : List ℕ) : Type 0 where
  pub sized : length rb.buf ≡ rb.size
  pub inside : rb.pos < rb.size
  pub shows : Shows rb hist

pub new_ring_buffer-Holds : (size : ℕ) → 0 < size → Holds (new_ring_buffer size) []
unfolding new_ring_buffer
new_ring_buffer-Holds size h = record {
  sized = length-replicate size 0;
  inside = h;
  shows = all refl refl refl;
}

pub contents-Shows :
    (rb : RingBuffer) (hist : List ℕ)
    → rb.pos < rb.size
    → Shows rb hist
    → contents rb ≡ recent rb.size hist
unfolding contents
contents-Shows rb hist inside (all f p e) =
    rw f (e ∙ sym (drop_zero (length hist - rb.size) hist (omega arith)))
contents-Shows rb hist inside (last f l e) = rw f e

-- A write as long as the buffer, or longer, replaces everything.
write_long :
    (rb : RingBuffer) (hist p : List ℕ)
    → Holds rb hist
    → rb.size ≤ length p
    → Holds (write rb p).1 (hist ++ p)
unfolding write
write_long rb hist p h long = rw long' (record {
  sized = rw buf' tail;
  inside = omega (arith, h.inside);
  shows = last refl (omega (arith, length-append hist p)) (rw buf' (append-nil _ ∙ sym kept));
})
  where
    long' : leb rb.size (length p) ≡ true
    long' = ground arith

    tail : length (drop (length p - rb.size) p) ≡ rb.size
    tail = omega (arith, length-drop (length p - rb.size) p)

    buf' : copy_at rb.buf 0 (drop (length p - rb.size) p) ≡ drop (length p - rb.size) p
    buf' =
        copy_at_start rb.buf (drop (length p - rb.size) p) (omega (arith, h.sized, tail))
        ∙ ap (◌++◌ (drop (length p - rb.size) p)) (drop_all _ rb.buf (omega (arith, h.sized, tail)))
        ∙ append-nil _

    kept : recent rb.size (hist ++ p) ≡ drop (length p - rb.size) p
    kept =
        drop-append_ge (length (hist ++ p) - rb.size) (length p - rb.size) hist p
          (omega (arith, length-append hist p))

-- A shorter write that does not reach the end of a buffer that is not full keeps everything.
write_fills :
    (rb : RingBuffer) (hist p : List ℕ)
    → Holds rb hist
    → 0 < length p
    → rb.full ≡ false
    → rb.pos ≡ length hist
    → take rb.pos rb.buf ≡ hist
    → rb.pos + length p < rb.size
    → Holds (write rb p).1 (hist ++ p)
unfolding write
write_fills rb hist p h some_bytes f l e room = rw short (record {
  sized = rw h.sized at (length-write rb.buf rb.pos p (omega (arith, h.sized, h.inside)));
  inside = omega (arith, pos', room);
  shows = all still_open (omega (arith, pos', l, length-append hist p)) (rw pos' kept);
})
  where
    short : leb rb.size (length p) ≡ false
    short = ground arith

    pos' : (rb.pos + length p) % rb.size ≡ rb.pos + length p
    pos' = mod-eq_of_lt {n = rb.pos + length p} {m = rb.size} room

    still_open :
        (if not rb.full && leb ((rb.pos + length p) % rb.size) rb.pos then true else rb.full)
        ≡ false
    still_open = ground (arith, pos')

    kept : take (rb.pos + length p) (copy_wrapped rb.buf rb.size rb.pos p) ≡ hist ++ p
    kept =
        rw h.sized at
          (take-write rb.buf rb.pos p (omega (arith, h.sized, h.inside)) (omega (arith, h.sized)))
        ∙ ap (λ x. x ++ p) e

-- A write shorter than the buffer after which it is full.
write_rounds :
    (rb : RingBuffer) (hist p : List ℕ)
    → Holds rb hist
    → length p < rb.size
    → (if not rb.full && leb ((rb.pos + length p) % rb.size) rb.pos then true else rb.full) ≡ true
    → rb.size ≤ length (hist ++ p)
    → drop (length p) (rotated rb.buf rb.pos) ++ p ≡ recent rb.size (hist ++ p)
    → Holds (write rb p).1 (hist ++ p)
unfolding write
write_rounds rb hist p h small full' enough kept = rw short (record {
  sized = rw h.sized at (length-write rb.buf rb.pos p (omega (arith, h.sized, h.inside)));
  inside = mod-lt (rb.pos + length p) {m = rb.size} (omega (arith, h.inside));
  shows = last full' enough (shown ∙ kept);
})
  where
    short : leb rb.size (length p) ≡ false
    short = ground arith

    shown :
        rotated (copy_wrapped rb.buf rb.size rb.pos p) ((rb.pos + length p) % rb.size)
        ≡ drop (length p) (rotated rb.buf rb.pos) ++ p
    shown =
        rw h.sized at (
          rotated-write rb.buf rb.pos p (omega (arith, h.sized, h.inside)) (omega (arith, h.sized)))

-- Dropping the `n` oldest of the last `size` and appending `n` gives the new last `size`.
recent-append :
    (size : ℕ) (hist p : List ℕ)
    → size ≤ length hist
    → length p ≤ size
    → drop (length p) (recent size hist) ++ p ≡ recent size (hist ++ p)
recent-append size hist p h small =
    ap (λ x. x ++ p) (drop-drop (length p) (length hist - size) hist)
    ∙ sym (
        drop_eq (length (hist ++ p) - size) (length hist - size + length p) (hist ++ p)
          (omega (arith, length-append hist p))
        ∙ drop-append_le (length hist - size + length p) hist p (omega arith))

-- The same where the history lies at the front of a buffer that is not yet full.
recent-first :
    (size pos : ℕ) (buf hist p : List ℕ)
    → length buf ≡ size
    → pos ≡ length hist
    → pos < size
    → take pos buf ≡ hist
    → length p ≤ size
    → size ≤ pos + length p
    → drop (length p) (rotated buf pos) ++ p ≡ recent size (hist ++ p)
recent-first size pos buf hist p s l inside e small over =
    ap (λ x. x ++ p)
      (drop-append_ge (length p) (pos + length p - size) (drop pos buf) (take pos buf)
          (omega (arith, length-drop pos buf))
        ∙ ap (drop (pos + length p - size)) e)
    ∙ sym (
        drop_eq (length (hist ++ p) - size) (pos + length p - size) (hist ++ p)
          (omega (arith, length-append hist p))
        ∙ drop-append_le (pos + length p - size) hist p (omega arith))

write_short :
    (rb : RingBuffer) (hist p : List ℕ)
    → Holds rb hist
    → Shows rb hist
    → 0 < length p
    → length p < rb.size
    → Holds (write rb p).1 (hist ++ p)
write_short rb hist p h (last f l e) some_bytes small =
    write_rounds rb hist p h small (ground arith) (omega (arith, length-append hist p))
      (rw e (recent-append rb.size hist p l (omega arith)))
write_short rb hist p h (all f l e) some_bytes small = elim (dec_lt (rb.pos + length p) rb.size) [
  | yes room ↦ write_fills rb hist p h some_bytes f l e room
  | no over ↦
      write_rounds rb hist p h small (goes_round (omega arith))
        (omega (arith, length-append hist p))
        (recent-first rb.size rb.pos rb.buf hist p h.sized l h.inside e (omega arith) (omega arith))
]
  where
    goes_round :
        rb.size ≤ rb.pos + length p
        → (if not rb.full && leb ((rb.pos + length p) % rb.size) rb.pos then true else rb.full)
          ≡ true
    goes_round over = ground (
      arith,
      mod-eq-sub-mod {n = rb.pos + length p} {m = rb.size} over,
      mod-eq_of_lt {n = rb.pos + length p - rb.size} {m = rb.size} (omega (arith, h.inside)),
    )

-- A write of at least one byte keeps the buffer showing the last bytes of what was written.
pub write-Holds :
    (rb : RingBuffer) (hist p : List ℕ)
    → Holds rb hist
    → 0 < length p
    → Holds (write rb p).1 (hist ++ p)
write-Holds rb hist p h some_bytes = elim (dec_lt (length p) rb.size) [
  | yes small ↦ write_short rb hist p h h.shows some_bytes small
  | no big ↦ write_long rb hist p h (omega arith)
]
