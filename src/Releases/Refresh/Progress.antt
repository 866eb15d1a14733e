-- ===== src/Releases/Refresh/Progress.antt =====
-- When `refreshReleaseState` of apps/upload/src/releases.service.ts releases a release.
use upload.Prelude.{
  ℕ, ℕ_eq, String, String_eq, Bool, true, false, ◌&&◌, ◌||◌, some, List, [], ◌∷◌, ◌≡◌, refl, ◌∙◌,
  ap, subst, arith, ◌==◌, any, map_where, Bool-cases, inl, inr, find?, find?-eq-some,
}
use upload.Storage.Orm.{Orm, IsSql, orm-eq-on_rows}
use upload.Storage.Enums.{in_review, released, ReleaseStatus_eq}
use upload.Storage.Rows.{Release}
use upload.Storage.Db.{Db, of_version, HasUniqueVersions}
use upload.Storage.Minio.{Minio}
use upload.Releases.{ReleaseView, get_release_entity}
use upload.Releases.Refresh.{Findings, is_ready, is_terminal, examine, refresh_release_state}
use upload.Releases.Refresh.Compliance.{check_regulations_counts}
use upload.Releases.Refresh.Table.{settle, refresh_table, regulation_counts, view-release}
use upload.Releases.Refresh.Gate.{IsJustified}

-- What a search finds is in the table after an update of what it searches for.
any-map_where :
    {A : Type 0} (p q : A → Bool) (f : A → A) (xs : List A) (a : A)
    → find? p xs ≡ some a
    → q (f a) ≡ true
    → any (map_where p f xs) q ≡ true
any-map_where p q f [] a h passes = cc
any-map_where p q f (x ∷ xs) a h passes = elim (Bool-cases (p x)) [
  | inl hit ↦
      let e : x ≡ a = ground arith in
      let own : q (f x) ≡ true = ap (λ y. q (f y)) e ∙ passes in rw hit (rw own refl)
  | inr miss ↦
      let rest = any-map_where p q f xs a (ground arith) passes in rw miss (rw rest (ground arith))
]

-- A release that a refresh can release, or keeps released.
abbrev pub is_refreshed : Release → Bool
is_refreshed r = r.status == in_review || r.status == released

refreshed-is_terminal : (r : Release) → is_refreshed r ≡ true → is_terminal r ≡ false
refreshed-is_terminal r h = ground arith

abbrev pub is_released_version : ℕ → String → Release → Bool
is_released_version project version r = of_version project version r && r.status == released

settle-justified :
    (now project : ℕ) (version : String) (found : Findings) (counts : ℕ × ℕ) (r : Release)
    → of_version project version r ≡ true
    → is_refreshed r ≡ true
    → found.regulations_compliant ≡ true
    → is_ready found ≡ true
    → is_released_version project version (settle now found counts r) ≡ true
unfolding settle
settle-justified now project version found counts r here waits compliant ready =
    elim (Bool-cases (r.status == released)) [
      | inl done ↦ rw (done, compliant, ready) (ground arith)
      | inr other ↦ rw (other, compliant, ready) (ground arith)
    ]

justified-found :
    (orm : Orm) (minio : Minio) (bucket_name : String) (project : ℕ) (version : String)
    (view : ReleaseView) (db : Db)
    → IsJustified orm minio bucket_name project version view db
    → ((examine orm minio bucket_name project version view db).0.regulations_compliant ≡ true)
      × (is_ready (examine orm minio bucket_name project version view db).0 ≡ true)
unfolding examine
justified-found orm minio bucket_name project version view db j =
    ((check_regulations_counts _ _).0 ∙ j.compliant, j.ready)

-- A refresh of a release that is in review or released ends with a released row of its project and
-- version, where every regulation of the project has a compliant status, and the dependencies are all
-- released (and there is one) or the installation artifacts are uploaded. Versions are unique.
pub refresh_releases :
    (orm : Orm) (minio : Minio) (bucket_name : String) (now project : ℕ) (version : String)
    (db : Db) (view : ReleaseView)
    → IsSql orm
    → HasUniqueVersions db
    → get_release_entity orm db project version ≡ some view
    → is_refreshed view.release ≡ true
    → IsJustified orm minio bucket_name project version view db
    → any
        (refresh_release_state orm minio bucket_name now project version db).0.releases
        (is_released_version project version)
      ≡ true
refresh_releases orm minio bucket_name now project version db view sql unique read waits justified =
    let (compliant, ready) =
      justified-found orm minio bucket_name project version view db justified in
    let found = view-release orm db project version view (
      subst (λ o. get_release_entity o db project version ≡ some view) (orm-eq-on_rows orm sql)
        read) in
    rw
      (refresh_table orm minio bucket_name now project version db view sql unique read
        (refreshed-is_terminal view.release waits))
      (any-map_where (of_version project version) (is_released_version project version)
        (settle now (examine orm minio bucket_name project version view db).0
          (regulation_counts orm project version db))
        db.releases view.release found
        (settle-justified now project version
          (examine orm minio bucket_name project version view db).0
          (regulation_counts orm project version db) view.release
          (find?-eq-some (of_version project version) db.releases view.release found).0 waits
          compliant ready))
