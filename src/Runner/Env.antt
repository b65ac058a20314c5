-- ===== src/Runner/Env.antt =====
-- internal/runner/env.go: the environment of a job's command.
pub mod Laws
use cronbat.Prelude.{ℕ, Option, none, some, List, [], ◌∷◌, ◌++◌, ◌==◌, if◌then◌else◌}
use cronbat.Text.{Text, codes}
use cronbat.Dict.{Dict, insert}

-- What is before the first '=' and what is after it
unfoldable pub cut_equals : Text → Option (Text × Text)
cut_equals [] = none
cut_equals (x ∷ xs) =
    let rest = cut_equals xs in
    if x == b'=' then some ([], xs) else elim rest [ none ↦ none | some (k, v) ↦ some (x ∷ k, v) ]

-- A later entry replaces an earlier one of its name; one without '=' is left out.
unfoldable pub from_environ : List Text → Dict Text → Dict Text
unfolding cut_equals
from_environ [] m = m
from_environ (e ∷ es) m =
    from_environ es (elim (cut_equals e) [ none ↦ m | some (k, v) ↦ insert k v m ])

-- A range over a map, in an order in which its first entries are taken last
unfoldable pub overlay : Dict Text → Dict Text → Dict Text
overlay [] m = m
overlay ((k, v) ∷ e) m = insert k v (overlay e m)

unfoldable pub env_map : List Text → Dict Text → Dict Text → Text → Text → Dict Text
unfolding from_environ overlay
env_map environ base env job_name trigger = insert (codes "CRONBAT_TRIGGER") trigger (
    insert (codes "CRONBAT_JOB_NAME") job_name
      (overlay env (overlay base (from_environ environ []))))

unfoldable pub to_slice : Dict Text → List Text
to_slice [] = []
to_slice ((k, v) ∷ m) = (k ++ (codes "=" ++ v)) ∷ to_slice m

-- `environ` is os.Environ.
unfoldable pub build_env : List Text → Dict Text → Dict Text → Text → Text → List Text
unfolding env_map to_slice
build_env environ base env job_name trigger = to_slice (env_map environ base env job_name trigger)
