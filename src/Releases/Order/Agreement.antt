-- ===== src/Releases/Order/Agreement.antt =====
-- The sort order of the releases of a project agrees with their versions after
-- release.subscriber.ts of libs/common/src/database/subscribers has placed a new one.
use mathlib.Core.Bool.{false≢true}
use upload.Releases.Order.Members.{all-In, In-any, In-filter, All-filtered, all-Perm}
use upload.Prelude.{
  ℕ, ℕ_eq, ◌≤◌, String, String_eq, Bool, true, false, not, ◌&&◌, ◌||◌, none, some, List, [], ◌∷◌,
  ◌==◌, ◌≡◌, inl, inr, refl, sym, ◌∙◌, ap, subst, arith, filter, map, All-In, In, Bool-cases, any,
  all, all-of-In, ltb, leb, if◌then◌else◌, eq_iff, ==-refl, Distinct, only-In,
}
use upload.Storage.Rows.{Release}
use upload.Storage.Db.{same_version, same_catalog_id}
use upload.Storage.Orm.{Orm, IsSql, on_rows, by_rows}
use upload.Releases.Order.{Semver, sort_versions, new_sort_order, after_insert}
use upload.Releases.Order.Laws.{placed, found_order, after_insert_rows}
use upload.Releases.Order.Place.{
  IsComparison, Ascending, IsBefore, Ascending-sort, All-sort, In-sort, IsPlace, place,
}

module _ (semver : Semver) (release : Release) where
  -- A release of the project with a version that can be compared.
  abbrev pub counts : Release → Bool
  counts x = x.project == release.project && semver.valid x.version

  -- The other releases of the project have a place, in the order of their versions.
  pub record IsInOrder (rows : List Release) : Type 0 where
    pub has_place :
        (x : Release)
        → In x rows
        → counts x ≡ true
        → (x.version == release.version) ≡ false
        → 1 ≤ x.sort_order
    pub agrees :
        (x y : Release)
        → In x rows
        → In y rows
        → counts x ≡ true
        → counts y ≡ true
        → (x.version == release.version) ≡ false
        → (y.version == release.version) ≡ false
        → semver.is_greater y.version x.version ≡ ltb x.sort_order y.sort_order

module _ (orm : Orm) (sql : IsSql orm) (semver : Semver) (cmp : IsComparison semver)
    (release : Release) (rows : List Release) (valid : semver.valid release.version ≡ true)
    (there_is : In release rows) (ordered : IsInOrder semver release rows) where
  abbrev v : String
  v = release.version

  abbrev is_valid : Release → Bool
  is_valid x = semver.valid x.version

  abbrev of_project : List Release
  of_project = filter (λ r. r.project == release.project) rows

  abbrev listed : List Release
  listed = orm.order_by (λ r. some r.sort_order) of_project

  abbrev sorted : List Release
  sorted = sort_versions semver (filter is_valid listed)

  from_listed :
      (p : Release → Bool)
      → ((x : Release) → In x listed → p x ≡ true)
      → (x : Release) → In x of_project
      → p x ≡ true
  from_listed p h x m =
      all-In p of_project x
        (sym (all-Perm p listed of_project (sql.order_perm (λ r. some r.sort_order) of_project))
          ∙ all-of-In p listed h)
        m

  to_listed :
      (p : Release → Bool)
      → ((x : Release) → In x of_project → p x ≡ true)
      → (x : Release) → In x listed
      → p x ≡ true
  to_listed p h x m =
      all-In p listed x
        (all-Perm p listed of_project (sql.order_perm (λ r. some r.sort_order) of_project)
          ∙ all-of-In p of_project h)
        m

  In-of_project :
      (x : Release) → In x of_project → In x rows × ((x.project == release.project) ≡ true)
  In-of_project x m =
      All-In _ of_project x (All-filtered (λ r. r.project == release.project) rows) m

  In-listed : (x : Release) → In x sorted → In x listed × (is_valid x ≡ true)
  In-listed x m =
      All-In (λ y. In y listed × (is_valid y ≡ true)) sorted x
        (All-sort semver cmp (λ y. In y listed × (is_valid y ≡ true)) (filter is_valid listed)
          (All-filtered is_valid listed))
        m

  In-sorted : (x : Release) → In x listed → is_valid x ≡ true → In x sorted
  In-sorted x m h = In-sort semver cmp (filter is_valid listed) x (In-filter is_valid listed x m h)

  pos : (y : Release) → In y sorted → (y.version == v) ≡ false → 1 ≤ y.sort_order
  pos y m other =
      let (here_too, is) = In-listed y m in
      let all_have =
        to_listed (λ x. not (is_valid x) || (x.version == v || leb 1 x.sort_order))
          (λ x k.
            let (r, p) = In-of_project x k in let place_of = ordered.has_place x r in ground arith)
          y here_too in
      ground arith

  abbrev agree_test : Release → Release → Bool
  agree_test x y =
      not (is_valid x && is_valid y)
      || (x.version == v
          || (y.version == v
              || (if semver.is_greater y.version x.version
                  then ltb x.sort_order y.sort_order
                  else not (ltb x.sort_order y.sort_order))))

  agree :
      (x y : Release)
      → In x sorted
      → In y sorted
      → (x.version == v) ≡ false
      → (y.version == v) ≡ false
      → semver.is_greater y.version x.version ≡ ltb x.sort_order y.sort_order
  agree x y m n hx hy =
      let (mx, vx) = In-listed x m in
      let (my, vy) = In-listed y n in
      let each =
        to_listed (λ a. all of_project (agree_test a))
          (λ a ka. all-of-In (agree_test a) of_project (λ b kb.
            let (ra, pa) = In-of_project a ka in
            let (rb, pb) = In-of_project b kb in
            let both = ordered.agrees a b ra rb in ground arith))
          x mx in
      let test =
        to_listed (agree_test x) (λ b kb. all-In (agree_test x) of_project b each kb) y my in
      ground arith

  found : any sorted (λ z. z.version == v) ≡ true
  found = elim (Bool-cases (any sorted (λ z. z.version == v))) [
    | inl present ↦ present
    | inr missing ↦
        let mine =
          In-filter (λ r. r.project == release.project) rows release there_is
            (==-refl release.project) in
        let no =
          from_listed (λ x. not (x.version == v && is_valid x))
            (λ x m. elim (Bool-cases (x.version == v && is_valid x)) [
              | inr not_it ↦ rw not_it refl
              | inl it ↦ absurd (
                  false≢true (
                    sym missing
                    ∙ In-any (λ z. z.version == v) sorted x (In-sorted x m (ground arith))
                        (ground arith)))
            ])
            release mine in
        absurd (false≢true (rw (==-refl v, valid) at no))
  ]

  abbrev n : ℕ
  n = new_sort_order none v sorted

  is_place : IsPlace semver cmp v sorted pos agree none sorted n
  unfolding Ascending IsBefore
  is_place =
      place semver cmp v sorted pos agree none sorted (λ y m. m)
        (Ascending-sort semver cmp (filter is_valid listed)) tt found

  placed_right :
      (y : Release)
      → In y rows
      → counts semver release y ≡ true
      → (not (semver.is_greater y.version v) || leb n y.sort_order)
          && (not (semver.is_greater v y.version) || ltb y.sort_order n)
        ≡ true
  placed_right y m c =
      let mine = In-filter (λ r. r.project == release.project) rows y m (ground arith) in
      let test =
        from_listed
          (λ x.
            not (is_valid x)
            || ((not (semver.is_greater x.version v) || leb n x.sort_order)
                && (not (semver.is_greater v x.version) || ltb x.sort_order n)))
          (λ x k. elim (Bool-cases (is_valid x)) [
            | inr invalid ↦ rw invalid refl
            | inl is ↦
                let i = In-sorted x k is in
                let higher = is_place.below_higher x i in
                let lower = is_place.above_lower x i in ground arith
          ])
          y mine in
      ground arith

  module _ (versions : Distinct same_version rows) (ids : Distinct same_catalog_id rows) where
    is_release :
        (x : Release) → In x rows → (x.catalog_id == release.catalog_id) ≡ true → x ≡ release
    is_release x m h =
        All-In (λ x. same_catalog_id x release ≡ true → x ≡ release) rows x
          (only-In same_catalog_id (λ x. ==-refl x.catalog_id)
            (λ x y k.
              ground (arith, eq_iff x.catalog_id y.catalog_id, eq_iff y.catalog_id x.catalog_id))
            release rows ids there_is)
          m h

    other_version :
        (x : Release)
        → In x rows
        → counts semver release x ≡ true
        → (x.catalog_id == release.catalog_id) ≡ false
        → (x.version == v) ≡ false
    other_version x m c other = elim (Bool-cases (x.version == v)) [
      | inr differs ↦ differs
      | inl same ↦
          let e : x ≡ release =
            All-In (λ x. same_version x release ≡ true → x ≡ release) rows x
              (only-In same_version (λ x. rw (==-refl x.project, ==-refl x.version) refl)
                (λ x y k. ground (arith, eq_iff x.version y.version, eq_iff y.version x.version))
                release rows versions there_is)
              m (ground (arith, eq_iff x.version v, eq_iff v x.version)) in
          absurd (false≢true (sym other ∙ rw e (==-refl release.catalog_id)))
    ]

    abbrev pair_test : Release → Release → Bool
    pair_test x y =
        not (
          counts semver release x
          && (counts semver release y && semver.is_greater y.version x.version))
        || ltb x.sort_order y.sort_order

    same_place : semver.is_greater v v ≡ false
    same_place = elim (Bool-cases (semver.is_greater v v)) [
      | inr apart ↦ apart
      | inl yes_it ↦ cmp.asymmetric v v yes_it
    ]

    pair_placed :
        (x y : Release)
        → In x rows
        → In y rows
        → pair_test (placed release n x) (placed release n y) ≡ true
    unfolding placed
    pair_placed x y mx my =
        let px = placed_right x mx in
        let py = placed_right y my in
        let ox = other_version x mx in
        let oy = other_version y my in
        let both = ordered.agrees x y mx my in
        elim (Bool-cases (x.catalog_id == release.catalog_id)) [
          | inl same_x ↦
              let ex : x.version ≡ v = ap (λ r. r.version) (is_release x mx same_x) in
              elim (Bool-cases (y.catalog_id == release.catalog_id)) [
                | inl same_y ↦
                    let ey : y.version ≡ v = ap (λ r. r.version) (is_release y my same_y) in
                    let irreflexive : semver.is_greater y.version x.version ≡ false =
                      rw (ex, ey) same_place in
                    ground arith
                | inr other_y ↦ ground arith
              ]
          | inr other_x ↦ elim (Bool-cases (y.catalog_id == release.catalog_id)) [
            | inl same_y ↦
                let ey : y.version ≡ v = ap (λ r. r.version) (is_release y my same_y) in
                ground arith
            | inr other_y ↦ ground arith
          ]
        ]

all-map :
    (f : Release → Release) (p : Release → Bool) (rows : List Release)
    → all (map f rows) p ≡ all rows (λ x. p (f x))
all-map f p [] = refl
all-map f p (x ∷ rows) = ap (λ b. p (f x) && b) (all-map f p rows)

-- The table after the insertion of a release.
pub record IsInserted (semver : Semver) (release : Release) (before after : List Release)
    : Type 0 where
  pub place_of : ℕ
  pub moved : after ≡ map (placed release place_of) before
  pub ascending :
      all after (λ x. all after (λ y.
        not (
          counts semver release x
          && (counts semver release y && semver.is_greater y.version x.version))
        || ltb x.sort_order y.sort_order))
      ≡ true

IsInserted-rows :
    (orm : Orm) (semver : Semver) (release : Release) (rows : List Release)
    → IsSql orm
    → IsComparison semver
    → semver.valid release.version ≡ true
    → Distinct same_version rows
    → Distinct same_catalog_id rows
    → In release rows
    → IsInOrder semver release rows
    → IsInserted semver release rows (after_insert (on_rows orm) semver release rows)
unfolding found_order
IsInserted-rows orm semver release rows sql cmp valid versions ids there_is ordered =
    let order = found_order (on_rows orm) semver release rows in
    let after = map (placed release order) rows in
    let table = after_insert_rows orm semver release rows valid in
    record {
      place_of = order;
      moved = table;
      ascending =
          subst
            (λ t.
              all t (λ x.
                all t
                  (pair_test orm sql semver cmp release rows valid there_is ordered versions ids x))
              ≡ true)
            (sym table)
            (all-map (placed release order) _ rows
              ∙ all-of-In _ rows (λ x mx.
                all-map (placed release order) _ rows
                ∙ all-of-In _ rows (λ y my.
                  pair_placed orm sql semver cmp release rows valid there_is ordered versions ids x
                    y mx my)));
    }

-- After the insertion of a release with a valid version, whose project has the other releases in the
-- order of their versions, all releases of the project stand in the order of their versions, the new
-- one included: a higher version has a higher sort order. Each row of the table, of whatever project,
-- but that of the release has its order or the next one, and is otherwise as it was. The other
-- releases have orders from 1 on; versions and ids are unique; and the comparison of versions is
-- asymmetric, and two versions that it does not tell apart stand alike to any other.
pub after_insert_lem :
    (orm : Orm) (semver : Semver) (release : Release) (rows : List Release)
    → IsSql orm
    → IsComparison semver
    → semver.valid release.version ≡ true
    → Distinct same_version rows
    → Distinct same_catalog_id rows
    → In release rows
    → IsInOrder semver release rows
    → IsInserted semver release rows (after_insert orm semver release rows)
after_insert_lem orm semver release rows sql cmp valid versions ids there_is ordered =
    by_rows (λ o. IsInserted semver release rows (after_insert o semver release rows)) orm sql
      (IsInserted-rows orm semver release rows sql cmp valid versions ids there_is ordered)
