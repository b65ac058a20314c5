-- ===== src/Runner/RingBuffer.antt =====
-- The ring buffer of internal/runner/runner.go, which keeps the last bytes of a command's output.
-- Bytes are only moved, never computed with, so a byte is any number.
mod Wrap
pub mod Shows
pub mod Refine
mod Tests
use cronbat.Prelude.{
  ℕ, ◌+◌, ◌-◌, ◌%◌, Bool, true, false, not, ◌&&◌, List, ◌++◌, leb, if◌then◌else◌, length, take,
  drop, replicate,
}

pub record RingBuffer : Type 0 where
  pub buf : List ℕ
  pub size : ℕ
  pub pos : ℕ
  pub full : Bool

-- Go's `copy(dst[at:], src)`: it stops at the end of either slice.
unfoldable pub copy_at : List ℕ → ℕ → List ℕ → List ℕ
copy_at dst at src = take at dst ++ (take (length dst - at) src ++ drop (at + length src) dst)

unfoldable pub new_ring_buffer : ℕ → RingBuffer
new_ring_buffer size = record { buf = replicate size 0; size = size; pos = 0; full = false }

-- The bytes of a write shorter than the buffer, in one piece or wrapped round the end.
pub copy_wrapped : List ℕ → ℕ → ℕ → List ℕ → List ℕ
copy_wrapped buf size pos p =
    let first = size - pos in
    if leb (length p) first
    then copy_at buf pos p
    else copy_at (copy_at buf pos (take first p)) 0 (drop first p)

-- The count that Go returns is always `len(p)`, and the error nil.
unfoldable pub write : RingBuffer → List ℕ → ℕ × RingBuffer
write rb p =
    let n = length p in
    if leb rb.size n
    then (n, record rb { buf = copy_at rb.buf 0 (drop (n - rb.size) p); pos = 0; full = true })
    else let pos' = (rb.pos + n) % rb.size in
      (
        n,
        record rb {
          buf = copy_wrapped rb.buf rb.size rb.pos p;
          pos = pos';
          full = if not rb.full && leb pos' rb.pos then true else rb.full;
        },
      )

-- `String`: oldest bytes first.
unfoldable pub contents : RingBuffer → List ℕ
contents rb = if rb.full then drop rb.pos rb.buf ++ take rb.pos rb.buf else take rb.pos rb.buf
