-- ===== src/Releases/Project/Laws.antt =====
-- What archiving and restoring a project does to its releases,
-- apps/upload/src/releases.service.ts.
use upload.Prelude.{
  ℕ, ℕ_eq, Bool, false, some, none, List, [], ◌∷◌, map, ◌≡◌, refl, ◌∙◌, ap, ap₂, arith, ◌==◌,
  if◌then◌else◌, length, ltb, filter, map_where, map-map, map_where-eq, All-of, Bool-cases, inl,
  inr,
}
use upload.Storage.Orm.{Orm, IsSql, on_rows, by_rows}
use upload.Storage.Enums.{draft, archived, ReleaseStatus_eq}
use upload.Storage.Rows.{Release}
use upload.Releases.{Job, send_changed, status, latest_released, update_latest_for_project}
use upload.Releases.Project.{
  is_active_of, is_archived_of, archive, to_draft, archive_project_releases,
  restore_project_releases,
}

-- With no active release the update changes nothing.
no_active :
    (project : ℕ) (rows : List Release)
    → length (filter (is_active_of project) rows) ≡ 0
    → rows ≡ map_where (is_active_of project) archive rows
no_active project [] h = refl
no_active project (r ∷ rows) h = elim (Bool-cases (is_active_of project r)) [
  | inl active ↦ ground arith
  | inr idle ↦ ap₂ ◌∷◌ (rw idle) (no_active project rows (rw idle at h))
]

abbrev announce : ℕ → Release → Job
announce project r = send_changed project r.catalog_id (some (status archived))

announce_if :
    (project : ℕ) (rows changed active : List Release)
    → (length active ≡ 0 → rows ≡ changed)
    → ◌≡◌ {A = List Release × List Job}
        (if ltb 0 (length active) then (changed, map (announce project) active) else (rows, []))
        (changed, map (announce project) active)
announce_if project rows changed [] h = ap (λ t. (t, [])) (h refl)
announce_if project rows changed (a ∷ active) h = ground arith

pub archive_rows :
    (orm : Orm) (project : ℕ) (rows : List Release)
    → archive_project_releases (on_rows orm) project rows ≡ (
      map_where (is_active_of project) archive rows,
      map (announce project) (filter (is_active_of project) rows),
    )
unfolding archive_project_releases
archive_rows orm project rows =
    announce_if project rows _ (filter (is_active_of project) rows) (no_active project rows)

-- Archiving archives each active release of the project and takes the latest mark off it, leaves
-- all other rows as they are, and announces exactly the releases that it archived, in order.
archive_project_releases_lem :
    (orm : Orm) (project : ℕ) (rows : List Release)
    → IsSql orm
    → archive_project_releases orm project rows ≡ (
      map_where (is_active_of project) archive rows,
      map (announce project) (filter (is_active_of project) rows),
    )
archive_project_releases_lem orm project rows sql =
    by_rows
      (λ o. archive_project_releases o project rows ≡ (
        map_where (is_active_of project) archive rows,
        map (announce project) (filter (is_active_of project) rows),
      ))
      orm sql (archive_rows orm project rows)

-- Restoring after archiving, row by row.
abbrev is_mine : ℕ → Release → Bool
is_mine project r = r.project == project

abbrev reset : Release → Release
reset r = record r { status = draft; latest = false }

archive_then_draft : ℕ → Release → Release
archive_then_draft project r =
    let archived_row = if is_active_of project r then archive r else r in
    if is_archived_of project archived_row then to_draft archived_row else archived_row

none_released :
    (project : ℕ) (rows : List Release)
    → latest_released project (map (archive_then_draft project) rows) ≡ none
unfolding latest_released archive_then_draft
none_released project [] = refl
none_released project (r ∷ rows) = ground (arith, none_released project rows)

reset_row :
    (project : ℕ) (r : Release)
    → (if is_mine project (archive_then_draft project r)
        then record (archive_then_draft project r) { latest = false }
        else archive_then_draft project r)
      ≡ (if is_mine project r then reset r else r)
unfolding archive_then_draft
reset_row project r = ground arith

restore_rows :
    (orm : Orm) (project : ℕ) (rows : List Release)
    → restore_project_releases
        (on_rows orm)
        project
        (archive_project_releases (on_rows orm) project rows).0
      ≡ map_where (is_mine project) reset rows
unfolding restore_project_releases update_latest_for_project archive_then_draft
restore_rows orm project rows =
    let table = map (archive_then_draft project) rows in
    let merged : map_where (is_archived_of project) to_draft
          (map_where (is_active_of project) archive rows)
        ≡ table =
      map-map _ _ rows in
    let unset : latest_released project table ≡ none = none_released project rows in
    let final : map_where (is_mine project) (λ r. record r { latest = false }) table
        ≡ map_where (is_mine project) reset rows =
      map-map _ _ rows
      ∙ map_where-eq (is_mine project) reset _ rows (All-of _ rows (reset_row project)) in
    rw (archive_rows orm project rows, merged, unset) final

-- Archiving a project and restoring it makes each of its releases a draft that is not the latest,
-- whatever status it had, and changes no other row: the statuses do not come back.
restore-archive :
    (orm : Orm) (project : ℕ) (rows : List Release)
    → IsSql orm
    → restore_project_releases orm project (archive_project_releases orm project rows).0
      ≡ map_where (is_mine project) reset rows
restore-archive orm project rows sql =
    by_rows
      (λ o.
        restore_project_releases o project (archive_project_releases o project rows).0
        ≡ map_where (is_mine project) reset rows)
      orm sql (restore_rows orm project rows)
