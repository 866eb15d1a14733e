-- ===== src/Releases/Order.antt =====
-- libs/common/src/database/subscribers/release.subscriber.ts: the key and the sort order of a new
-- release. The comparison of semantic versions (the package semver) is a parameter.
pub mod Laws
pub mod Place
pub mod Members
pub mod Agreement
use Prim.Native.String
use upload.Prelude.{
  ℕ, ℕ_eq, ◌+◌, suc, String, String_eq, Bool, true, false, not, Option, none, some, List, [], ◌∷◌,
  ◌==◌, if◌then◌else◌, filter, head?, leb,
}
use upload.Storage.Orm.{Orm}
use upload.Storage.Rows.{Project, Release}

-- `semver.valid`, and whether `semver.compare` gives more than 0.
pub record Semver : Type 0 where
  pub valid : String → Bool
  pub is_greater : String → String → Bool

-- The name that a text template prints.
abbrev pub printed : Option String → String
printed none = "undefined"
printed (some s) = s

-- `beforeInsert`: the catalog id of a release.
pub catalog_id_of : (ℕ → String) → ℕ → Option String → String → String
catalog_id_of to_string project name version =
    String.◌++◌ (to_string project)
      (String.◌++◌ "." (String.◌++◌ (printed name) (String.◌++◌ "@" version)))

module _ (semver : Semver) where
  -- `sort` with `semver.compare`, which is stable.
  pub insert_sorted : Release → List Release → List Release
  insert_sorted r [] = r ∷ []
  insert_sorted r (s ∷ rest) =
      let later = insert_sorted r rest in
      if semver.is_greater r.version s.version then s ∷ later else r ∷ s ∷ rest

  pub sort_versions : List Release → List Release
  sort_versions [] = []
  sort_versions (r ∷ rest) = insert_sorted r (sort_versions rest)

-- The order after that of the release before the version, or 1.
pub new_sort_order : Option ℕ → String → List Release → ℕ
new_sort_order before version [] = 1
new_sort_order before version (r ∷ rest) =
    let further = new_sort_order (some r.sort_order) version rest in
    if r.version == version then elim before [ none ↦ 1 | some n ↦ n + 1 ] else further

module _ (orm : Orm) (semver : Semver) where
  pub after_insert : Release → List Release → List Release
  after_insert release rows =
      if not (semver.valid release.version)
      then rows
      else let releases =
          orm.order_by (λ r. some r.sort_order)
            (orm.find (λ r. r.project == release.project) rows) in
        let semver_releases =
          sort_versions semver (filter (λ r. semver.valid r.version) releases) in
        let order = new_sort_order none release.version semver_releases in
        let shifted =
          (orm.update (λ r. leb order r.sort_order)
            (λ r. record r { sort_order = suc r.sort_order }) rows).0 in
        (orm.update (λ r. r.catalog_id == release.catalog_id) (λ r. record r { sort_order = order })
          shifted).0
