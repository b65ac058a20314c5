-- ===== src/Config/Saving.antt =====
-- The two ways a call of `SaveJob` ends.
use cronbat.Prelude.{◌≡◌, refl, inl, inr, false, Option, none, some, arith, Option-cases}
use cronbat.Text.{Text, text_eq}
use cronbat.Dict.{lookup, insert, lookup-insert, lookup-remove}
use cronbat.Errors.{Error, Result, ok, err}
use cronbat.Config.Job.{Job}
use cronbat.Config.Files.{written, dir_made, marshalled, save_job}
use cronbat.World.{World, Disk, mkdir_all, write_file, left_by_fault}

-- No file but the one at `path` differs.
abbrev pub OnlyAt : Text → Disk → Disk → Type 0
OnlyAt path d d' = (p : Text) → text_eq path p ≡ false → lookup p d' ≡ lookup p d

pub data Saving (w : World) (path : Text) (j : Job) (d : Disk) : Result Job × Disk → Type 0 where
  saved :
      (content : Text)
      → w.marshal j ≡ ok content
      → Saving w path j d (ok (record j { file_path = path }), insert path content d)
  failed : (e : Error) (d' : Disk) → OnlyAt path d d' → Saving w path j d (err e, d')

pub OnlyAt-insert : (path content : Text) (d : Disk) → OnlyAt path d (insert path content d)
OnlyAt-insert path content d p other = ground (arith, lookup-insert path p content d)

OnlyAt-left :
    (path : Text) (rest : Option Text) (d : Disk) → OnlyAt path d (left_by_fault path rest d)
unfolding left_by_fault
OnlyAt-left path none d p other = ground (arith, lookup-remove path p d)
OnlyAt-left path (some rest) d p other = OnlyAt-insert path rest d p other

module _ (w : World) (path : Text) (j : Job) (content : Text) (m : w.marshal j ≡ ok content)
    (d : Disk) where
  written-Saving : Saving w path j d (written j path (write_file w path content d))
  unfolding written write_file
  written-Saving = elim (Option-cases (w.write_fault path content)) [
    | inl e ↦ rw (e, write_file) (Saving.saved content m)
    | inr ((error, rest), e) ↦
        rw (e, write_file)
          (Saving.failed error (left_by_fault path rest d) (OnlyAt-left path rest d))
  ]

  dir_made-Saving : (r : Result (Unit {0})) → Saving w path j d (dir_made w path j content d r)
  unfolding dir_made
  dir_made-Saving (err e) = Saving.failed e d (λ p other. refl)
  dir_made-Saving (ok _) = written-Saving

marshalled-Saving :
    (w : World) (path : Text) (j : Job) (d : Disk) (r : Result Text)
    → w.marshal j ≡ r
    → Saving w path j d (marshalled w path j d r)
unfolding marshalled
marshalled-Saving w path j d (err e) m = Saving.failed e d (λ p other. refl)
marshalled-Saving w path j d (ok content) m =
    dir_made-Saving w path j content m d (mkdir_all w (w.dir path))

pub save_job-Saving :
    (w : World) (path : Text) (j : Job) (d : Disk) → Saving w path j d (save_job w path j d)
unfolding save_job
save_job-Saving w path j d = marshalled-Saving w path j d (w.marshal j) refl
