-- ===== src/Runner/Env/Laws.antt =====
-- Which value of a variable a command sees.
use cronbat.Prelude.{
  ◌≡◌, refl, ◌∙◌, ap, subst, inl, inr, Bool, true, false, Bool-cases, Option, none, some, List, [],
  ◌∷◌, ◌++◌, ◌==◌, arith, if◌then◌else◌,
}
use cronbat.Text.{Text, codes, text_eq}
use cronbat.Text.Laws.{text_eq→eq, text_eq_iff}
use cronbat.Dict.{Dict, lookup, insert, lookup-insert}
use cronbat.Runner.Env.{cut_equals, overlay, from_environ, env_map, to_slice, build_env}

abbrev pub or_else : Option Text → Option Text → Option Text
or_else none o = o
or_else (some v) o = some v

lookup-overlay :
    (k : Text) (e m : Dict Text) → lookup k (overlay e m) ≡ or_else (lookup k e) (lookup k m)
unfolding overlay lookup
lookup-overlay k [] m = refl
lookup-overlay k ((j, v) ∷ e) m =
    ground (arith, lookup-insert j k v (overlay e m), lookup-overlay k e m)

-- Which value of a variable the map of `BuildEnv` holds.
lookup-env_map :
    (environ : List Text) (base env : Dict Text) (job_name trigger k : Text)
    → lookup k (env_map environ base env job_name trigger) ≡ (
        if text_eq (codes "CRONBAT_TRIGGER") k
        then some trigger
        else if text_eq (codes "CRONBAT_JOB_NAME") k
        then some job_name
        else or_else (lookup k env) (or_else (lookup k base) (lookup k (from_environ environ []))))
unfolding env_map
lookup-env_map environ base env job_name trigger k =
    lookup-insert (codes "CRONBAT_TRIGGER") k trigger _
    ∙ ap (λ o. if text_eq (codes "CRONBAT_TRIGGER") k then some trigger else o)
        (lookup-insert (codes "CRONBAT_JOB_NAME") k job_name _
          ∙ ap (λ o. if text_eq (codes "CRONBAT_JOB_NAME") k then some job_name else o)
              (lookup-overlay k env _
                ∙ ap (or_else (lookup k env)) (lookup-overlay k base (from_environ environ []))))

-- A map whose names are written out without being cut short, each once.
abbrev IsProper : Dict Text → Type 0
IsProper [] = Unit
IsProper ((k, v) ∷ m) = (cut_equals k ≡ none) × (lookup k m ≡ none) × IsProper m

-- No name has an '='.
abbrev pub NoEquals : Dict Text → Type 0
NoEquals [] = Unit
NoEquals ((k, v) ∷ m) = (cut_equals k ≡ none) × NoEquals m

cut_equals-entry :
    (k v : Text) → cut_equals k ≡ none → cut_equals (k ++ (codes "=" ++ v)) ≡ some (k, v)
unfolding cut_equals
cut_equals-entry [] v h = refl
cut_equals-entry (x ∷ k) v h = elim (Bool-cases (x == b'=')) [
  | inl e ↦ absurd (cc (rw e at h))
  | inr e ↦ rw (e, cut_equals-entry k v (tail_none (cut_equals k) (rw e at h))) refl
]
  where
    tail_none :
        (o : Option (Text × Text))
        → elim o as (λ y. Option (Text × Text)) [ none ↦ none | some (j, u) ↦ some (x ∷ j, u) ]
          ≡ none
        → o ≡ none
    tail_none none h = refl
    tail_none (some (j, u)) h = absurd (cc)

-- What stands before the first '=' has none.
cut_equals-name : (e k v : Text) → cut_equals e ≡ some (k, v) → cut_equals k ≡ none
unfolding cut_equals
cut_equals-name [] k v h = absurd (cc)
cut_equals-name (x ∷ e) k v h = elim (Bool-cases (x == b'=')) [
  | inl is ↦
      let cut : ◌≡◌ {A = Option (Text × Text)} (some ([], e)) (some (k, v)) = rw is at h in
      let same : ◌≡◌ {A = Text} [] k = cc in subst (λ n. cut_equals n ≡ none) same refl
  | inr other ↦ longer other (cut_equals e) (λ j u is. cut_equals-name e j u is) (rw other at h)
]
  where
    longer :
        (x == b'=') ≡ false
        → (o : Option (Text × Text)) → ((j u : Text) → o ≡ some (j, u) → cut_equals j ≡ none)
        → elim o as (λ y. Option (Text × Text)) [ none ↦ none | some (j, u) ↦ some (x ∷ j, u) ]
          ≡ some (k, v)
        → cut_equals k ≡ none
    longer other none shorter h = absurd (cc)
    longer other (some (j, u)) shorter h =
        let same : (x ∷ j) ≡ k = cc in
        subst (λ n. cut_equals n ≡ none) same (rw (other, shorter j u refl) refl)

insert-IsProper :
    (k v : Text) (m : Dict Text) → cut_equals k ≡ none → IsProper m → IsProper (insert k v m)
unfolding insert lookup
insert-IsProper k v [] h proper = (h, refl, tt)
insert-IsProper k v ((j, w) ∷ m) h proper = elim (Bool-cases (text_eq j k)) [
  | inl e ↦ rw e proper
  | inr e ↦ rw e (
    proper.0,
    ground (arith, lookup-insert k j v m, text_eq_iff k j, text_eq_iff j k, proper.1),
    insert-IsProper k v m h proper.2,
  )
]

from_environ-IsProper : (es : List Text) (m : Dict Text) → IsProper m → IsProper (from_environ es m)
unfolding from_environ
from_environ-IsProper [] m proper = proper
from_environ-IsProper (e ∷ es) m proper = from_environ-IsProper es _ (by_cut (cut_equals e) refl)
  where
    by_cut :
        (o : Option (Text × Text))
        → cut_equals e ≡ o
        → IsProper (elim o as (λ y. Dict Text) [ none ↦ m | some (k, v) ↦ insert k v m ])
    by_cut none is = proper
    by_cut (some (k, v)) is = insert-IsProper k v m (cut_equals-name e k v is) proper

overlay-IsProper : (e m : Dict Text) → NoEquals e → IsProper m → IsProper (overlay e m)
unfolding overlay
overlay-IsProper [] m clean proper = proper
overlay-IsProper ((k, v) ∷ e) m clean proper =
    insert-IsProper k v (overlay e m) clean.0 (overlay-IsProper e m clean.1 proper)

from_environ-entry :
    (k v : Text) (es : List Text) (m : Dict Text)
    → cut_equals k ≡ none
    → from_environ ((k ++ (codes "=" ++ v)) ∷ es) m ≡ from_environ es (insert k v m)
unfolding from_environ
from_environ-entry k v es m h =
    ap (λ o. from_environ es (elim o as (λ y. Dict Text) [ none ↦ m | some (j, u) ↦ insert j u m ]))
      (cut_equals-entry k v h)

-- The entries that are written out are read back.
lookup-to_slice :
    (k : Text) (m acc : Dict Text)
    → IsProper m
    → lookup k (from_environ (to_slice m) acc) ≡ or_else (lookup k m) (lookup k acc)
unfolding to_slice from_environ lookup
lookup-to_slice k [] acc proper = refl
lookup-to_slice k ((j, v) ∷ m) acc proper =
    ap (lookup k) (from_environ-entry j v (to_slice m) acc proper.0)
    ∙ lookup-to_slice k m (insert j v acc) proper.2
    ∙ ap (or_else (lookup k m)) (lookup-insert j k v acc)
    ∙ by_name (text_eq j k) refl
  where
    by_name :
        (b : Bool)
        → text_eq j k ≡ b
        → or_else (lookup k m) (if b then some v else lookup k acc)
          ≡ or_else (if b then some v else lookup k m) (lookup k acc)
    by_name false e = refl
    by_name true e = rw (subst (λ n. lookup n m ≡ none) (text_eq→eq j k e) proper.1) refl

-- A command that takes its environment apart at the first '=' of each entry, the last entry of a
-- name counting, finds the trigger and the name of its job under CRONBAT_TRIGGER and
-- CRONBAT_JOB_NAME, whatever else sets them, and under any other name the value of the job, or else
-- of the base, or else of the process. The names in the job and in the base have no '='.
pub lookup-build_env :
    (environ : List Text) (base env : Dict Text) (job_name trigger k : Text)
    → NoEquals base
    → NoEquals env
    → lookup k (from_environ (build_env environ base env job_name trigger) []) ≡ (
        if text_eq (codes "CRONBAT_TRIGGER") k
        then some trigger
        else if text_eq (codes "CRONBAT_JOB_NAME") k
        then some job_name
        else or_else (lookup k env) (or_else (lookup k base) (lookup k (from_environ environ []))))
unfolding build_env env_map cut_equals lookup
lookup-build_env environ base env job_name trigger k clean clean' =
    lookup-to_slice k (env_map environ base env job_name trigger) [] (
      insert-IsProper (codes "CRONBAT_TRIGGER") trigger _ refl (
        insert-IsProper (codes "CRONBAT_JOB_NAME") job_name _ refl (
          overlay-IsProper env _ clean'
            (overlay-IsProper base _ clean (from_environ-IsProper environ [] tt)))))
    ∙ or_else_none (lookup k (env_map environ base env job_name trigger))
    ∙ lookup-env_map environ base env job_name trigger k
  where
    or_else_none : (o : Option Text) → or_else o none ≡ o
    or_else_none none = refl
    or_else_none (some v) = refl
