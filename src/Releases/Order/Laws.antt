-- ===== src/Releases/Order/Laws.antt =====
-- What a new release does to the sort order of the others, release.subscriber.ts of
-- libs/common/src/database/subscribers.
use upload.Prelude.{
  ℕ, ℕ_eq, suc, String_eq, true, none, some, List, map, ◌≡◌, ◌==◌, if◌then◌else◌, filter, leb,
  map-map,
}
use upload.Storage.Orm.{Orm, on_rows}
use upload.Storage.Rows.{Release}
use upload.Releases.Order.{Semver, sort_versions, new_sort_order, after_insert}

-- The row of a table after a release has taken a place in the order.
unfoldable pub placed : Release → ℕ → Release → Release
placed release order r =
    let shifted =
      if leb order r.sort_order then record r { sort_order = suc r.sort_order } else r in
    if shifted.catalog_id == release.catalog_id
    then record shifted { sort_order = order }
    else shifted

module _ (orm : Orm) (semver : Semver) where
  -- The place that the subscriber finds for a release.
  unfoldable pub found_order : Release → List Release → ℕ
  found_order release rows = new_sort_order none release.version (
      sort_versions semver (
        filter (λ r. semver.valid r.version)
          (orm.order_by (λ r. some r.sort_order)
            (orm.find (λ r. r.project == release.project) rows))))

pub after_insert_rows :
    (orm : Orm) (semver : Semver) (release : Release) (rows : List Release)
    → semver.valid release.version ≡ true
    → after_insert (on_rows orm) semver release rows
      ≡ map (placed release (found_order (on_rows orm) semver release rows)) rows
unfolding after_insert placed found_order
after_insert_rows orm semver release rows valid = rw (valid, after_insert) (map-map _ _ rows)
