-- ===== src/RunLog/Capped/Laws.antt =====
-- What a capped writer's file holds after any number of writes.
use cronbat.Prelude.{
  ℕ, ◌-◌, ◌≤◌, ◌<◌, min, ◌≡◌, refl, sym, ◌∙◌, ap, subst, Bool, true, false, Option, none, some,
  List, [], ◌∷◌, ◌++◌, append-nil, append_assoc, flatten, arith, leb, ltb, ◌==◌, if◌then◌else◌,
  length, take, length-append, length-take, take_all, take-append, take_eq,
}
use cronbat.RunLog.Capped.{CappedFileWriter, new_capped_file_writer, stored, write}

-- Writes one after the other.
unfoldable pub write_all :
    (List ℕ → List ℕ → Option ℕ) → List (List ℕ) → CappedFileWriter → CappedFileWriter
write_all fault [] w = w
write_all fault (p ∷ ps) w = write_all fault ps (write fault p w).1

-- No write to the file fails.
abbrev pub no_fault : List ℕ → List ℕ → Option ℕ
no_fault held p = none

-- The file holds what fits of all the bytes that came.
record Holds (max_bytes : ℕ) (hist : List ℕ) (w : CappedFileWriter) : Type 0 where
  limit : w.max_bytes ≡ max_bytes
  file : w.file ≡ take max_bytes hist
  written : w.written ≡ min max_bytes (length hist)

module _ (max_bytes : ℕ) (hist p : List ℕ) (w : CappedFileWriter) (h : Holds max_bytes hist w) where
  -- A full file keeps what it has.
  take_full : max_bytes ≤ w.written → take max_bytes (hist ++ p) ≡ take max_bytes hist
  take_full full =
      take-append max_bytes hist p
      ∙ ap (◌++◌ (take max_bytes hist))
          (take_eq (max_bytes - length hist) 0 p (omega (arith, h.written)))
      ∙ append-nil (take max_bytes hist)

  -- A file with room holds everything so far, and takes what fits.
  take_room :
      w.written < max_bytes → w.file ++ take (max_bytes - w.written) p ≡ take max_bytes (hist ++ p)
  take_room room =
      ap (λ s. s ++ take (max_bytes - w.written) p) h.file
      ∙ ap (◌++◌ (take max_bytes hist))
          (take_eq (max_bytes - w.written) (max_bytes - length hist) p (omega (arith, h.written)))
      ∙ sym (take-append max_bytes hist p)

  kept : max_bytes ≤ w.written → Holds max_bytes (hist ++ p) (record w { truncated = true })
  kept full = record {
    limit = h.limit;
    file = h.file ∙ sym (take_full full);
    written = omega (arith, h.written, length-append hist p);
  }

  write-Holds : Holds max_bytes (hist ++ p) (write no_fault p w).1
  unfolding write stored
  write-Holds = record {
    limit = ground (arith, h.limit);
    file =
        ground (arith, h.limit, h.file, take_full, take_room, take_all (w.max_bytes - w.written) p);
    written =
        ground (
          arith,
          h.limit,
          h.written,
          length-append hist p,
          length-take (w.max_bytes - w.written) p,
        );
  }

  -- A write that brings bytes sets the mark just when they do not all fit.
  truncated-write :
      0 < length p
      → w.truncated ≡ ltb max_bytes (length hist)
      → (write no_fault p w).1.truncated ≡ ltb max_bytes (length (hist ++ p))
  unfolding write stored
  truncated-write some_bytes t = ground (arith, h.limit, h.written, length-append hist p)

write_all-Holds :
    (max_bytes : ℕ) (ps : List (List ℕ)) (hist : List ℕ) (w : CappedFileWriter)
    → Holds max_bytes hist w
    → Holds max_bytes (hist ++ flatten ps) (write_all no_fault ps w)
unfolding write_all flatten
write_all-Holds max_bytes [] hist w h = subst (λ s. Holds max_bytes s w) (sym (append-nil hist)) h
write_all-Holds max_bytes (p ∷ ps) hist w h =
    subst (λ s. Holds max_bytes s (write_all no_fault ps (write no_fault p w).1))
      (append_assoc hist p (flatten ps))
      (write_all-Holds max_bytes ps (hist ++ p) (write no_fault p w).1
        (write-Holds max_bytes hist p w h))

new-Holds : (max_bytes : ℕ) → Holds max_bytes [] (new_capped_file_writer max_bytes)
new-Holds max_bytes = record {
  limit = refl;
  file = sym (take_all max_bytes [] (omega arith));
  written = omega arith;
}

-- Whatever writes a new writer takes, while the file's own writes succeed, the file holds the first
-- `max_bytes` bytes of all of them in order, and `WrittenBytes` is their number.
pub file-write_all :
    (max_bytes : ℕ) (ps : List (List ℕ))
    → ((write_all no_fault ps (new_capped_file_writer max_bytes)).file
        ≡ take max_bytes (flatten ps))
      × ((write_all no_fault ps (new_capped_file_writer max_bytes)).written
          ≡ min max_bytes (length (flatten ps)))
file-write_all max_bytes ps =
    let h =
      write_all-Holds max_bytes ps [] (new_capped_file_writer max_bytes) (new-Holds max_bytes) in
    (h.file, h.written)

abbrev pub NonEmpty : List (List ℕ) → Type 0
NonEmpty [] = Unit
NonEmpty (p ∷ ps) = (0 < length p) × NonEmpty ps

write_all-truncated :
    (max_bytes : ℕ) (ps : List (List ℕ)) (hist : List ℕ) (w : CappedFileWriter)
    → Holds max_bytes hist w
    → NonEmpty ps
    → w.truncated ≡ ltb max_bytes (length hist)
    → (write_all no_fault ps w).truncated ≡ ltb max_bytes (length (hist ++ flatten ps))
unfolding write_all flatten
write_all-truncated max_bytes [] hist w h some_bytes t =
    t ∙ ap (λ s. ltb max_bytes (length s)) (sym (append-nil hist))
write_all-truncated max_bytes (p ∷ ps) hist w h some_bytes t =
    write_all-truncated max_bytes ps (hist ++ p) (write no_fault p w).1
      (write-Holds max_bytes hist p w h) some_bytes.1
      (truncated-write max_bytes hist p w h some_bytes.0 t)
    ∙ ap (λ s. ltb max_bytes (length s)) (append_assoc hist p (flatten ps))

-- After non-empty writes, while the file's own writes succeed, `Truncated` says whether more than
-- `max_bytes` bytes came.
pub truncated-write_all :
    (max_bytes : ℕ) (ps : List (List ℕ))
    → NonEmpty ps
    → (write_all no_fault ps (new_capped_file_writer max_bytes)).truncated
      ≡ ltb max_bytes (length (flatten ps))
truncated-write_all max_bytes ps some_bytes =
    write_all-truncated max_bytes ps [] (new_capped_file_writer max_bytes) (new-Holds max_bytes)
      some_bytes (ground arith)

-- ---------------------------------------------------------------- with writes that fail

-- The count stays within the limit and within what the file holds.
record Bounded (max_bytes : ℕ) (w : CappedFileWriter) : Type 0 where
  limit : w.max_bytes ≡ max_bytes
  below : w.written ≤ max_bytes
  held : w.written ≤ length w.file

module _ (max_bytes : ℕ) (w : CappedFileWriter) (b : Bounded max_bytes w) where
  stored-Bounded :
      (p : List ℕ) (r : Option ℕ) (t : Bool)
      → length p ≤ max_bytes - w.written
      → Bounded max_bytes (stored p r (record w { truncated = t }))
  unfolding stored
  stored-Bounded p none t fits = record {
    limit = b.limit;
    below = omega (arith, b.below);
    held = omega (arith, b.held, length-append w.file p);
  }
  stored-Bounded p (some n) t fits = record {
    limit = b.limit;
    below = b.below;
    held = omega (arith, b.held, length-append w.file (take n p));
  }

  marked : Bounded max_bytes (record w { truncated = true })
  marked = record { limit = b.limit; below = b.below; held = b.held }

  -- The result of `Write` by the outcomes of its three tests
  abbrev by_tests :
      (List ℕ → List ℕ → Option ℕ) → List ℕ → Bool → Bool → Bool → ℕ × CappedFileWriter
  by_tests fault p no_room full long =
      if no_room
      then (length p, record w { truncated = true })
      else if full
      then (length p, record w { truncated = true })
      else if long
      then (
        length p,
        stored (take (w.max_bytes - w.written) p) (fault w.file (take (w.max_bytes - w.written) p))
            (record w { truncated = true }),
      )
      else (length p, stored p (fault w.file p) w)

  by_tests-Bounded :
      (fault : List ℕ → List ℕ → Option ℕ) (p : List ℕ) (no_room full long : Bool)
      → (long ≡ false → length p ≤ max_bytes - w.written)
      → Bounded max_bytes (by_tests fault p no_room full long).1
  by_tests-Bounded fault p true full long fits = marked
  by_tests-Bounded fault p false true long fits = marked
  by_tests-Bounded fault p false false true fits =
      stored-Bounded (take (w.max_bytes - w.written) p)
        (fault w.file (take (w.max_bytes - w.written) p)) true
        (omega (arith, b.limit, length-take (w.max_bytes - w.written) p))
  by_tests-Bounded fault p false false false fits =
      stored-Bounded p (fault w.file p) w.truncated (fits refl)

  write-Bounded :
      (fault : List ℕ → List ℕ → Option ℕ) (p : List ℕ) → Bounded max_bytes (write fault p w).1
  unfolding write
  write-Bounded fault p =
      by_tests-Bounded fault p (w.max_bytes == 0) (leb w.max_bytes w.written)
        (ltb (w.max_bytes - w.written) (length p)) (λ e. ground (arith, b.limit))

write_all-Bounded :
    (max_bytes : ℕ) (fault : List ℕ → List ℕ → Option ℕ) (ps : List (List ℕ)) (w : CappedFileWriter)
    → Bounded max_bytes w
    → Bounded max_bytes (write_all fault ps w)
unfolding write_all
write_all-Bounded max_bytes fault [] w b = b
write_all-Bounded max_bytes fault (p ∷ ps) w b =
    write_all-Bounded max_bytes fault ps (write fault p w).1 (write-Bounded max_bytes w b fault p)

-- Whatever writes a new writer takes, and whichever of the file's own writes fail, `WrittenBytes`
-- is at most the limit and at most the length of the file.
pub written-write_all_le :
    (max_bytes : ℕ) (fault : List ℕ → List ℕ → Option ℕ) (ps : List (List ℕ))
    → ((write_all fault ps (new_capped_file_writer max_bytes)).written ≤ max_bytes)
      × ((write_all fault ps (new_capped_file_writer max_bytes)).written
          ≤ length (write_all fault ps (new_capped_file_writer max_bytes)).file)
written-write_all_le max_bytes fault ps =
    let b =
      write_all-Bounded max_bytes fault ps (new_capped_file_writer max_bytes)
        (record { limit = refl; below = omega arith; held = omega arith }) in
    (b.below, b.held)
