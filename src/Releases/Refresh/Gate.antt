-- ===== src/Releases/Refresh/Gate.antt =====
-- When `refreshReleaseState` of apps/upload/src/releases.service.ts leaves a release released.
use upload.Prelude.{
  ℕ, ℕ_eq, String, Bool, true, false, ◌||◌, some, List, [], ◌∷◌, ◌≡◌, ◌∙◌, sym, arith, ◌==◌, all,
  map_where, All, Bool-cases, inl, inr,
}
use mathlib.Core.Bool.{false≢true}
use upload.Storage.Orm.{Orm, IsSql}
use upload.Storage.Enums.{released, ReleaseStatus_eq}
use upload.Storage.Rows.{Release}
use upload.Storage.Db.{Db, of_version, HasUniqueVersions}
use upload.Storage.Minio.{Minio}
use upload.Regulations.{get_version_regulations_statuses}
use upload.Releases.{ReleaseView, get_release_entity}
use upload.Releases.Refresh.{
  Findings, is_ready, is_terminal, is_compliant, dependencies_are_released, file_is_uploaded,
  examine, refresh_release_state,
}
use upload.Releases.Refresh.Compliance.{check_regulations_counts}
use upload.Releases.Refresh.Table.{settle, refresh_table}

All-map_where :
    {P : Release → Type 0} (p : Release → Bool) (f : Release → Release) (xs : List Release)
    → ((x : Release) → p x ≡ true → P (f x))
    → ((x : Release) → p x ≡ false → P x)
    → All P (map_where p f xs)
All-map_where p f [] hit miss = tt
All-map_where {P} p f (x ∷ xs) hit miss = (
  elim (Bool-cases (p x)) [ inl yes_p ↦ rw yes_p (hit x yes_p) | inr no_p ↦ rw no_p (miss x no_p) ],
  All-map_where p f xs hit miss,
)

-- What makes a release fit to be released: each regulation of its project has a compliant status,
-- and its dependencies are released or its installation artifacts are there.
pub record IsJustified (orm : Orm) (minio : Minio) (bucket_name : String) (project : ℕ)
    (version : String) (view : ReleaseView) (db : Db) : Type 0 where
  pub compliant :
      all
        (orm.find (λ r. r.project == project) db.regulations)
        (is_compliant (get_version_regulations_statuses orm db project version))
      ≡ true
  pub ready :
      (dependencies_are_released view.dependencies
        || file_is_uploaded orm view
            (examine orm minio bucket_name project version view db).1.files)
      ≡ true

settle-released :
    (now : ℕ) (found : Findings) (counts : ℕ × ℕ) (r : Release)
    → (settle now found counts r).status ≡ released
    → (found.regulations_compliant ≡ true) × (is_ready found ≡ true)
unfolding settle
settle-released now found counts r h = ground arith

found-IsJustified :
    (orm : Orm) (minio : Minio) (bucket_name : String) (project : ℕ) (version : String)
    (view : ReleaseView) (db : Db)
    → (examine orm minio bucket_name project version view db).0.regulations_compliant ≡ true
    → is_ready (examine orm minio bucket_name project version view db).0 ≡ true
    → IsJustified orm minio bucket_name project version view db
unfolding examine
found-IsJustified orm minio bucket_name project version view db c r = record {
  compliant = sym (check_regulations_counts _ _).0 ∙ c;
  ready = r;
}

-- After a refresh of a release that is neither in error nor archived, a row of its project and
-- version is released only if the release is justified: every regulation of the project has a
-- compliant status, and the dependencies are all released (and there is one) or the installation
-- artifacts are uploaded according to the table as the storage check left it.
pub refresh_gate :
    (orm : Orm) (minio : Minio) (bucket_name : String) (now project : ℕ) (version : String)
    (db : Db) (view : ReleaseView)
    → IsSql orm
    → HasUniqueVersions db
    → get_release_entity orm db project version ≡ some view
    → is_terminal view.release ≡ false
    → All
        (λ r.
          of_version project version r ≡ true
          → r.status ≡ released
          → IsJustified orm minio bucket_name project version view db)
        (refresh_release_state orm minio bucket_name now project version db).0.releases
refresh_gate orm minio bucket_name now project version db view sql unique read alive =
    rw (refresh_table orm minio bucket_name now project version db view sql unique read alive) (
      All-map_where
        {P = λ r.
          of_version project version r ≡ true
          → r.status ≡ released
          → IsJustified orm minio bucket_name project version view db}
        _ _ db.releases
        (λ x _ _ done.
          let (c, r) = settle-released now _ _ x done in
          found-IsJustified orm minio bucket_name project version view db c r)
        (λ x miss hit _. absurd (false≢true (sym miss ∙ hit))))
