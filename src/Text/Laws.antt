-- ===== src/Text/Laws.antt =====
-- Laws of the string functions: equality, trimming, and predicates on every character.
use cronbat.Prelude.{
  ℕ, ◌≡◌, refl, ap, ap₂, ◌∙◌, ◌↔◌, inl, inr, Bool, true, false, ◌&&◌, [], ◌∷◌, ◌++◌, arith,
  Bool-cases,
}
use cronbat.Text.{Text, is_empty, text_eq, trim_left, trim_right, trim}

pub text_eq→eq : (s t : Text) → text_eq s t ≡ true → s ≡ t
unfolding text_eq
text_eq→eq [] [] h = refl
text_eq→eq [] (y ∷ ys) h = cc
text_eq→eq (x ∷ xs) [] h = cc
text_eq→eq (x ∷ xs) (y ∷ ys) h = ap₂ ◌∷◌ (ground arith) (text_eq→eq xs ys (ground arith))

pub text_eq_refl : (s : Text) → text_eq s s ≡ true
unfolding text_eq
text_eq_refl [] = refl
text_eq_refl (x ∷ xs) = ground (arith, text_eq_refl xs)

pub text_eq_iff : (s t : Text) → (text_eq s t ≡ true) ↔ (s ≡ t)
text_eq_iff s t = (text_eq→eq s t, λ e. rw e (text_eq_refl t))

-- Every character of a text passes a test.
unfoldable pub every : (ℕ → Bool) → Text → Bool
every p [] = true
every p (x ∷ xs) = p x && every p xs

pub every-append : (p : ℕ → Bool) (s t : Text) → every p (s ++ t) ≡ every p s && every p t
unfolding every
every-append p [] t = refl
every-append p (x ∷ xs) t = ground (arith, every-append p xs t)

pub every-trim_left :
    (p q : ℕ → Bool) (s : Text) → every p s ≡ true → every p (trim_left q s) ≡ true
unfolding every trim_left
every-trim_left p q [] h = refl
every-trim_left p q (x ∷ xs) h = ground (arith, every-trim_left p q xs)

pub every-trim_right :
    (p q : ℕ → Bool) (s : Text) → every p s ≡ true → every p (trim_right q s) ≡ true
unfolding every trim_right
every-trim_right p q [] h = refl
every-trim_right p q (x ∷ xs) h = ground (arith, every-trim_right p q xs)

-- No character at the start, or at the end, passes the test.
abbrev pub StartsOutside : (ℕ → Bool) → Text → Type 0
StartsOutside p [] = Unit
StartsOutside p (x ∷ xs) = p x ≡ false

pub trim_left-StartsOutside : (p : ℕ → Bool) (s : Text) → StartsOutside p (trim_left p s)
unfolding trim_left
trim_left-StartsOutside p [] = tt
trim_left-StartsOutside p (x ∷ xs) = elim (Bool-cases (p x)) [
  | inl e ↦ rw e (trim_left-StartsOutside p xs)
  | inr e ↦ rw e e
]

pub trim_left_of_StartsOutside : (p : ℕ → Bool) (s : Text) → StartsOutside p s → trim_left p s ≡ s
unfolding trim_left
trim_left_of_StartsOutside p [] h = refl
trim_left_of_StartsOutside p (x ∷ xs) h = rw h

-- A text that trimming on the right leaves alone.
pub trim_right_idem : (p : ℕ → Bool) (s : Text) → trim_right p (trim_right p s) ≡ trim_right p s
unfolding trim_right
trim_right_idem p [] = refl
trim_right_idem p (x ∷ xs) = elim (Bool-cases (is_empty (trim_right p xs) && p x)) [
  | inl e ↦ rw (e, trim_right) refl
  | inr e ↦ ground (arith, trim_right_idem p xs)
]

trim_right-StartsOutside :
    (p : ℕ → Bool) (s : Text) → StartsOutside p s → StartsOutside p (trim_right p s)
unfolding trim_right
trim_right-StartsOutside p [] h = tt
trim_right-StartsOutside p (x ∷ xs) h = elim (Bool-cases (is_empty (trim_right p xs) && p x)) [
  | inl e ↦ rw e tt
  | inr e ↦ rw e h
]

pub trim_idem : (p : ℕ → Bool) (s : Text) → trim p (trim p s) ≡ trim p s
unfolding trim
trim_idem p s =
    ap (trim_right p) (
      trim_left_of_StartsOutside p (trim_right p (trim_left p s))
        (trim_right-StartsOutside p (trim_left p s) (trim_left-StartsOutside p s)))
    ∙ trim_right_idem p (trim_left p s)
