-- ===== src/Scheduler/Names.antt =====
-- The next run of a name depends only on which entries there are, not on where they stand.
use cronbat.Prelude.{
  ℕ, ◌≤◌, ◌≡◌, refl, ◌∙◌, sym, inl, inr, Bool, true, ◌&&◌, none, some, List, [], ◌∷◌, arith, ◌==◌,
  if◌then◌else◌, Bool-cases, Option-cases, get_elem?,
}
use cronbat.Text.{Text, text_eq}
use cronbat.Scheduler.{index_of, find_next}
use cronbat.Scheduler.Heap
use cronbat.Scheduler.Heap.{Entry}
use cronbat.Scheduler.Heap.Counts.{count}
use cronbat.Scheduler.Heap.Contents.{count-push}

abbrev pub named : Text → Entry → Bool
named n e = text_eq e.job_name n

abbrev pub named_at : Text → ℕ → Entry → Bool
named_at n t e = text_eq e.job_name n && (e.next_run == t)

-- No two entries have one name.
abbrev pub IsUnique : List Entry → Type 0
IsUnique h = (n : Text) → count (named n) h ≤ 1

named_at-le : (n : Text) (t : ℕ) (h : List Entry) → count (named_at n t) h ≤ count (named n) h
unfolding count
named_at-le n t [] = omega arith
named_at-le n t (e ∷ es) = ground (arith, named_at-le n t es)

pub find_next-some :
    (n : Text) (t : ℕ) (h : List Entry) → find_next n h ≡ some t → 1 ≤ count (named_at n t) h
unfolding find_next count
find_next-some n t [] e = absurd (cc)
find_next-some n t (x ∷ h) e = ground (arith, find_next-some n t h)

pub find_next-none : (n : Text) (h : List Entry) → find_next n h ≡ none → count (named n) h ≡ 0
unfolding find_next count
find_next-none n [] e = refl
find_next-none n (x ∷ h) e = ground (arith, find_next-none n h)

pub find_next_of_count_zero :
    (n : Text) (h : List Entry) → count (named n) h ≡ 0 → find_next n h ≡ none
unfolding find_next count
find_next_of_count_zero n [] e = refl
find_next_of_count_zero n (x ∷ h) e = ground (arith, find_next_of_count_zero n h)

pub find_next_of_count :
    (n : Text) (t : ℕ) (h : List Entry)
    → count (named n) h ≤ 1
    → 1 ≤ count (named_at n t) h
    → find_next n h ≡ some t
unfolding find_next count
find_next_of_count n t [] u e = absurd (omega arith)
find_next_of_count n t (x ∷ h) u e = ground (arith, find_next_of_count n t h, named_at-le n t h)

-- The next run of a name depends only on which entries there are.
pub find_next-eq :
    (n : Text) (h h' : List Entry)
    → count (named n) h ≤ 1
    → count (named n) h ≡ count (named n) h'
    → ((t : ℕ) → count (named_at n t) h ≡ count (named_at n t) h')
    → find_next n h ≡ find_next n h'
find_next-eq n h h' u same same_at = elim (Option-cases (find_next n h')) [
  | inl e ↦ find_next_of_count_zero n h (omega (arith, find_next-none n h' e)) ∙ sym e
  | inr (t, e) ↦
      find_next_of_count n t h u (omega (arith, same_at t, find_next-some n t h' e)) ∙ sym e
]

-- ------------------------------------------------------------------ push

pub find_next-push :
    (n : Text) (e : Entry) (h : List Entry)
    → count (named n) (Heap.push e h) ≤ 1
    → find_next n (Heap.push e h)
      ≡ (if text_eq e.job_name n then some e.next_run else find_next n h)
find_next-push n e h u =
    find_next-eq n (Heap.push e h) (e ∷ h) u (pushed (named n)) (λ t. pushed (named_at n t))
    ∙ (unfold find_next in refl)
  where
    pushed : (p : Entry → Bool) → count p (Heap.push e h) ≡ count p (e ∷ h)
    pushed p = unfold count in omega (arith, count-push p e h)

-- ------------------------------------------------------------------ removal by name

pub index_of-some :
    (name : Text) (h : List Entry) (i : ℕ)
    → index_of name h ≡ some i
    → (x : Entry) × (get_elem? h i ≡ some x) × (text_eq x.job_name name ≡ true)
unfolding index_of
index_of-some name [] i e = absurd (cc)
index_of-some name (x ∷ h) i e = elim (Bool-cases (text_eq x.job_name name)) [
  | inl is ↦ (x, ground arith, is)
  | inr isnt ↦ elim (Option-cases (index_of name h)) [
    | inl none_below ↦ absurd (ground arith)
    | inr (k, below) ↦ let (y, at, is) = index_of-some name h k below in (y, ground arith, is)
  ]
]

pub index_of-none :
    (name : Text) (h : List Entry) → index_of name h ≡ none → count (named name) h ≡ 0
unfolding index_of count
index_of-none name [] e = refl
index_of-none name (x ∷ h) e = ground (arith, index_of-none name h)
