-- ===== src/Runner/Tests.antt =====
-- The environment of a concrete command.
use cronbat.Prelude.{◌≡◌, refl, some, none, [], ◌∷◌}
use cronbat.Text.{Text, codes, text_eq}
use cronbat.Dict.{Dict, lookup}
use cronbat.Runner.Env.{cut_equals, from_environ, build_env}
use cronbat.Runner.Env.Laws.{lookup-build_env}

abbrev home : Dict Text
home = (codes "HOME", codes "/job") ∷ []

home_name : cut_equals (codes "HOME") ≡ none
unfolding cut_equals
home_name = refl

lookup-build_env_example :
    lookup
      (codes "HOME")
      (from_environ (build_env (codes "HOME=/root" ∷ []) [] home (codes "a") (codes "manual")) [])
    ≡ some (codes "/job")
unfolding lookup text_eq
lookup-build_env_example =
    lookup-build_env (codes "HOME=/root" ∷ []) [] home (codes "a") (codes "manual") (codes "HOME")
      tt (home_name, tt)
