-- ===== src/Runner/RingBuffer/Refine.antt =====
-- A ring buffer shows the last `size` bytes of all that was written to it.
use cronbat.Prelude.{
  ℕ, ◌+◌, ◌<◌, ◌≡◌, refl, ◌∙◌, ap, true, false, List, [], ◌∷◌, ◌++◌, append-nil, append_assoc,
  arith, leb, length, take, drop, flatten, length-append, length-take, length-drop,
}
use cronbat.Runner.RingBuffer.{RingBuffer, new_ring_buffer, write, contents}
use cronbat.Runner.RingBuffer.Wrap.{length-write}
use native.Mathlib.Nat.{mod-eq_of_lt}
use cronbat.Runner.RingBuffer.Shows.{
  all, last, recent, Shows, Holds, new_ring_buffer-Holds, contents-Shows, write-Holds,
}

-- the writes of one command, in order
unfoldable pub write_all : RingBuffer → List (List ℕ) → RingBuffer
write_all rb [] = rb
write_all rb (p ∷ ps) = write_all (write rb p).1 ps

abbrev pub NonEmpty : List (List ℕ) → Type 0
NonEmpty [] = Unit
NonEmpty (p ∷ ps) = (0 < length p) × NonEmpty ps

write_all-Holds :
    (ps : List (List ℕ)) (rb : RingBuffer) (hist : List ℕ)
    → Holds rb hist
    → NonEmpty ps
    → contents (write_all rb ps) ≡ recent (write_all rb ps).size (hist ++ flatten ps)
unfolding write_all flatten
write_all-Holds [] rb hist h some_bytes = rw append-nil (contents-Shows rb hist h.inside h.shows)
write_all-Holds (p ∷ ps) rb hist h some_bytes =
    write_all-Holds ps (write rb p).1 (hist ++ p) (write-Holds rb hist p h some_bytes.0)
      some_bytes.1
    ∙ ap (recent (write_all (write rb p).1 ps).size) (append_assoc hist p (flatten ps))

size-write : (rb : RingBuffer) (p : List ℕ) → (write rb p).1.size ≡ rb.size
unfolding write
size-write rb p = ground arith

size-write_all : (ps : List (List ℕ)) (rb : RingBuffer) → (write_all rb ps).size ≡ rb.size
unfolding write_all
size-write_all [] rb = refl
size-write_all (p ∷ ps) rb = size-write_all ps (write rb p).1 ∙ size-write rb p

-- Whatever non-empty writes a new buffer of `size` bytes takes, `String` returns the last `size`
-- bytes of all of them in order, or all of them while they are fewer.
pub contents-write_all :
    (size : ℕ) (ps : List (List ℕ))
    → 0 < size
    → NonEmpty ps
    → contents (write_all (new_ring_buffer size) ps) ≡ recent size (flatten ps)
unfolding new_ring_buffer
contents-write_all size ps pos some_bytes =
    write_all-Holds ps (new_ring_buffer size) [] (new_ring_buffer-Holds size pos) some_bytes
    ∙ ap (λ n. recent n (flatten ps)) (size-write_all ps (new_ring_buffer size))

length-contents_full : (rb : RingBuffer) → rb.full ≡ true → length (contents rb) ≡ length rb.buf
unfolding contents
length-contents_full rb f = rw f (
    omega (
      arith,
      length-append (drop rb.pos rb.buf) (take rb.pos rb.buf),
      length-drop rb.pos rb.buf,
      length-take rb.pos rb.buf,
    ))

full-write_empty : (rb : RingBuffer) → rb.pos < rb.size → (write rb []).1.full ≡ true
unfolding write
full-write_empty rb inside =
    ground (arith, mod-eq_of_lt {n = rb.pos + 0} {m = rb.size} (omega arith))

length-buf-write_empty :
    (rb : RingBuffer)
    → length rb.buf ≡ rb.size
    → rb.pos < rb.size
    → length (write rb []).1.buf ≡ rb.size
unfolding write
length-buf-write_empty rb sized inside =
    let short : leb rb.size 0 ≡ false = ground arith in
    rw short (rw sized at (length-write rb.buf rb.pos [] (omega arith)))

-- An empty write to a buffer that is not full makes `String` return `size` bytes, although fewer
-- were ever written.
pub length-contents-write_empty :
    (rb : RingBuffer) (hist : List ℕ)
    → Holds rb hist
    → rb.full ≡ false
    → (length (contents (write rb []).1) ≡ rb.size) × (length hist < rb.size)
length-contents-write_empty rb hist h f = (
  length-contents_full (write rb []).1 (full-write_empty rb h.inside)
      ∙ length-buf-write_empty rb h.sized h.inside,
  short h.shows,
)
  where
    short : Shows rb hist → length hist < rb.size
    short (all g l e) = omega (arith, h.inside)
    short (last g l e) = absurd (cc)
