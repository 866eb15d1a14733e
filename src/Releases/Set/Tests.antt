-- ===== src/Releases/Set/Tests.antt =====
-- Tests of the models of `setRelease` of apps/upload/src/releases.service.ts and of
-- libs/common/src/database/subscribers/release.subscriber.ts.
use upload.Prelude.{
  List, ℕ, ℕ_eq, String, String_eq, Bool, true, false, none, some, [], ◌∷◌, ◌≡◌, ◌==◌, ◌||◌, refl,
  ltb, if◌then◌else◌, arith, all, not, ◌&&◌, ◌≤◌, here, there,
}
use upload.Storage.Orm.{list_orm, list_orm-IsSql}
use upload.Storage.Enums.{draft, released}
use upload.Storage.Rows.{Release}
use upload.Storage.Samples.{db, minio, a_release}
use upload.Releases.Order.{Semver, after_insert}
use upload.Releases.Order.Members.{all-In}
use upload.Releases.Order.Place.{IsComparison}
use upload.Releases.Order.Agreement.{IsInOrder, IsInserted, after_insert_lem}
use upload.Releases.Set.{SetReleaseDto, Rules}
use upload.Releases.Set.Call.{save_existing, finish_set}
use upload.Storage.Db.{Db}
use upload.Releases.{Job}

abbrev semver : Semver
semver = record { valid = λ version. true; is_greater = λ a b. false }

abbrev to_string : ℕ → String
to_string n = "1"

abbrev dto : SetReleaseDto
dto = record {
  project_identifier = "maps";
  project_id = 1;
  version = "2.0.0";
  name = none;
  release_notes = none;
  metadata = none;
  is_draft = some true;
  status = none;
  dependencies = none;
}

abbrev rules : Rules
rules = record { rules = []; rule_releases = [] }

-- With the role the request puts the release back to a draft.
abbrev saved : Db
saved =
    save_existing list_orm minio "bucket" semver to_string dto none (some draft) none
      (a_release "2.0.0" released 2) db

abbrev result : Db × Rules × List Job
result = finish_set list_orm minio "bucket" semver to_string 7 dto "2.0.0" (saved, rules)

-- Versions are compared as texts that the sample knows.
abbrev rank : String → ℕ
rank version = if version == "1.0.0" then 1 else if version == "2.0.0" then 2 else 3

abbrev by_rank : Semver
by_rank = record { valid = λ version. true; is_greater = λ a b. ltb (rank b) (rank a) }

by_rank-IsComparison : IsComparison by_rank
by_rank-IsComparison = record {
  asymmetric = λ a b h. ltb-asymm (rank b) (rank a) h;
  between = λ a b c h. ltb-between (rank c) (rank b) (rank a) h;
}
  where
    ltb-asymm : (m n : ℕ) → ltb m n ≡ true → ltb n m ≡ false
    ltb-asymm m n h = ground arith

    ltb-between : (m k n : ℕ) → ltb m n ≡ true → (ltb k n || ltb m k) ≡ true
    ltb-between m k n h = ground arith

-- The release 2.0.0 has just been inserted, without an order.
abbrev rows : List Release
rows = a_release "1.0.0" draft 1 ∷ a_release "3.0.0" draft 2 ∷ a_release "2.0.0" draft 0 ∷ []

abbrev is_other : Release → Bool
is_other x = not (x.version == "2.0.0")

abbrev stands_right : Release → Release → Bool
stands_right x y =
    not (is_other x && is_other y)
    || (if by_rank.is_greater y.version x.version
        then ltb x.sort_order y.sort_order
        else not (ltb x.sort_order y.sort_order))

rows-IsInOrder : IsInOrder by_rank (a_release "2.0.0" draft 0) rows
rows-IsInOrder = record {
  has_place = λ x m c o.
      let t = all-In (λ z. not (is_other z) || ltb 0 z.sort_order) rows x refl m in
      placed_one x.sort_order (x.version == "2.0.0") o t;
  agrees = λ x y m n c d o q.
      let t =
        all-In (stands_right x) rows y (all-In (λ z. all rows (stands_right z)) rows x refl m) n in
      stands_one (by_rank.is_greater y.version x.version) (ltb x.sort_order y.sort_order)
        (x.version == "2.0.0") (y.version == "2.0.0") o q t;
}
  where
    placed_one :
        (order : ℕ) (same : Bool)
        → same ≡ false
        → (not (not same) || ltb 0 order) ≡ true
        → 1 ≤ order
    placed_one order same h t = ground arith

    stands_one :
        (higher less same_x same_y : Bool)
        → same_x ≡ false
        → same_y ≡ false
        → (not (not same_x && not same_y) || (if higher then less else not less)) ≡ true
        → higher ≡ less
    stands_one higher less same_x same_y h k t = ground arith

after_insert_example :
    IsInserted by_rank
      (a_release "2.0.0" draft 0)
      rows
      (after_insert list_orm by_rank (a_release "2.0.0" draft 0) rows)
after_insert_example =
    after_insert_lem list_orm by_rank (a_release "2.0.0" draft 0) rows list_orm-IsSql
      by_rank-IsComparison refl ((refl, (refl, tt)), ((refl, tt), (tt, tt)))
      ((refl, (refl, tt)), ((refl, tt), (tt, tt))) (there (there here)) rows-IsInOrder
