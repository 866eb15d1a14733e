-- ===== src/Releases.antt =====
-- apps/upload/src/releases.service.ts: reading releases with their relations, the permission to
-- edit a read-only release, the latest pointer and the total size.
pub mod Refresh
pub mod Latest
pub mod Upcoming
pub mod Jobs
mod Tests
pub mod Project
pub mod Order
pub mod Set
pub mod Report
use Prim.Native.Nat.{max}
use upload.Prelude.{
  ℕ, ℕ_eq, ◌+◌, String, String_eq, Bool, true, false, ◌&&◌, ◌||◌, Option, none, some, List, [], ◌∷◌,
  map, ◌==◌, option_beq, if◌then◌else◌, filter, filter_map, head?, any, ltb, map_where,
}
use upload.Storage.Orm.{Orm}
use upload.Storage.Enums.{ReleaseStatus, draft, in_review, released, archived, ReleaseStatus_eq}
use upload.Storage.Rows.{
  JsonNumber, finite, not_finite, Metadata, Release, FileUpload, Artifact, Dependency,
}
use upload.Storage.Db.{Db, of_version}
use upload.Files.Sync.{file_of}

-- What the service does beside its answer: messages that it sends and calls that it does not
-- await. A release event carries a status, or says that the release is deleted.
pub data ReleaseEvent : Type 0 where
  status : ReleaseStatus → ReleaseEvent
  deleted : ReleaseEvent

pub data Job : Type 0 where
  update_latest : ℕ → Job
  refresh : ℕ → String → Job
  send_changed : ℕ → String → Option ReleaseEvent → Job
  maybe_restore : String → Job

pub data ReleaseError : Type 0 where
  forbidden not_found depends_on_itself : ReleaseError

-- The result of `getReleaseEntity`.
pub record ReleaseView : Type 0 where
  pub release : Release
  pub artifacts : List (Artifact × Option FileUpload)
  pub dependencies : List Release
  pub dependent_releases : List Release

-- `checkReadonlyReleasePermission`, where it does not throw; the user's role is an argument.
abbrev pub is_readonly : Release → Bool
is_readonly r = r.status == released || r.status == ReleaseStatus.error

abbrev pub may_edit : Bool → Release → Bool
may_edit has_role r = if is_readonly r then has_role else true

module _ (orm : Orm) where
  pub dependencies_of : Db → Release → List Release
  dependencies_of db r =
      orm.find
        (λ d.
          any (orm.find (λ row. row.release == r.catalog_id) db.dependencies)
            (λ row. row.dependency == d.catalog_id))
        db.releases

  pub dependent_releases_of : Db → Release → List Release
  dependent_releases_of db r =
      orm.find
        (λ d.
          any (orm.find (λ row. row.dependency == r.catalog_id) db.dependencies)
            (λ row. row.release == d.catalog_id))
        db.releases

  unfoldable pub get_release_entity : Db → ℕ → String → Option ReleaseView
  get_release_entity db project version =
      elim (head? (orm.find (of_version project version) db.releases)) [
        | none ↦ none
        | some r ↦ some (record {
          release = r;
          artifacts =
              map (λ a. (a, file_of orm db a))
                (orm.find (λ a. a.release == r.catalog_id) db.artifacts);
          dependencies = dependencies_of db r;
          dependent_releases = dependent_releases_of db r;
        })
      ]

-- The subquery of `updateLatestForProject`: the released row with the highest sort order.
-- `ORDER BY sort_order DESC LIMIT 1` may return any of several rows with the same order; the
-- choice here is the first.
abbrev pub highest : Release → Option Release → Option Release
highest r none = some r
highest r (some s) = if ltb r.sort_order s.sort_order then some s else some r

abbrev pub is_released_of : ℕ → Release → Bool
is_released_of project r = (r.project == project) && (r.status == released)

unfoldable pub latest_released : ℕ → List Release → Option Release
latest_released project [] = none
latest_released project (r ∷ rs) =
    if is_released_of project r
    then highest r (latest_released project rs)
    else latest_released project rs

-- The raw UPDATE of `updateLatestForProject`; a comparison with NULL is not true.
abbrev pub is_latest : Option Release → Release → Bool
is_latest none r = false
is_latest (some l) r = r.catalog_id == l.catalog_id

unfoldable pub update_latest_for_project : ℕ → List Release → List Release
update_latest_for_project project releases =
    map_where (λ r. r.project == project)
      (λ r. record r { latest = is_latest (latest_released project releases) r }) releases

-- `getLatestAndUpcomingReleases` over the releases in descending sort order: the latest and the
-- upcoming release of the event.
pub record ReleasesChanged : Type 0 where
  pub latest_release : Option Release
  pub upcoming_release : Option Release

abbrev pub is_upcoming : Release → Bool
is_upcoming r = r.status == draft || r.status == in_review

unfoldable pub latest_and_upcoming : Option Release → List Release → ReleasesChanged
latest_and_upcoming upcoming [] = record { latest_release = none; upcoming_release = upcoming }
latest_and_upcoming none (r ∷ rs) =
    if is_upcoming r
    then latest_and_upcoming (some r) rs
    else if r.status == released
    then record { latest_release = some r; upcoming_release = none }
    else latest_and_upcoming none rs
latest_and_upcoming (some u) (r ∷ rs) =
    if r.status == released
    then record { latest_release = some r; upcoming_release = some u }
    else latest_and_upcoming (some u) rs

-- `updateTotalSize`
abbrev pub size_of : Option FileUpload → ℕ
size_of none = 0
size_of (some f) = elim f.size [ none ↦ 0 | some n ↦ n ]

unfoldable pub artifacts_size : List (Option FileUpload) → ℕ
artifacts_size [] = 0
artifacts_size (f ∷ fs) = size_of f + artifacts_size fs

abbrev pub installation_size : Metadata → ℕ
installation_size m = elim m.installation_size [
  | none ↦ 0
  | some n ↦ elim n [ finite k ↦ k | not_finite ↦ 0 ]
]

module _ (orm : Orm) where
  unfoldable pub update_total_size : ℕ → String → Db → Db
  update_total_size project version db = elim (get_release_entity orm db project version) [
    | none ↦ db
    | some view ↦
        let m = view.release.metadata in
        let total = installation_size m + artifacts_size (map (λ (a, f). f) view.artifacts) in
        record db {
          releases =
              (orm.update (of_version project version)
                (λ r. record r { metadata = record m { total_size = some total } }) db.releases).0;
        }
  ]
