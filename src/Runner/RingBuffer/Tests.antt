-- ===== src/Runner/RingBuffer/Tests.antt =====
-- Runs of the ring buffer, and its theorems at concrete inputs.
use cronbat.Prelude.{◌≡◌, refl, ℕ, List, [], ◌∷◌, arith, flatten}
use cronbat.Runner.RingBuffer.{new_ring_buffer, copy_at, copy_wrapped, write, contents}
use cronbat.Runner.RingBuffer.Refine.{write_all, contents-write_all}

abbrev chunks : List (List ℕ)
chunks = (1 ∷ 2 ∷ 3 ∷ []) ∷ (4 ∷ 5 ∷ []) ∷ (6 ∷ []) ∷ []

wraps : contents (write_all (new_ring_buffer 4) chunks) ≡ 3 ∷ 4 ∷ 5 ∷ 6 ∷ []
unfolding contents write_all write copy_wrapped copy_at new_ring_buffer
wraps = refl

keeps_all : contents (write_all (new_ring_buffer 8) chunks) ≡ 1 ∷ 2 ∷ 3 ∷ 4 ∷ 5 ∷ 6 ∷ []
unfolding contents write_all write copy_wrapped copy_at new_ring_buffer
keeps_all = refl

padded : contents (write (new_ring_buffer 3) []).1 ≡ 0 ∷ 0 ∷ 0 ∷ []
unfolding contents write copy_wrapped copy_at new_ring_buffer
padded = refl

contents-write_all_example : contents (write_all (new_ring_buffer 4) chunks) ≡ 3 ∷ 4 ∷ 5 ∷ 6 ∷ []
unfolding flatten
contents-write_all_example = contents-write_all 4 chunks (omega arith) (omega arith)
