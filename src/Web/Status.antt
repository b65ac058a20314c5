-- ===== src/Web/Status.antt =====
-- `statusFromError` of internal/web/api/jobs.go
use cronbat.Prelude.{ℕ, ◌||◌, if◌then◌else◌}
use cronbat.Text.{codes, contains, to_lower}
use cronbat.Errors.{Error}

-- The caller has an error.
unfoldable pub status_from_error : Error → ℕ
status_from_error e =
    let msg = to_lower e.message in
    if contains msg (codes "not found")
    then 404
    else if contains msg (codes "already exists")
    then 409
    else if contains msg (codes "required")
    then 400
    else if contains msg (codes "invalid") || contains msg (codes "parse")
    then 400
    else 500
