-- ===== src/Regulations/Laws.antt =====
-- What the upserts of apps/upload/src/regulation-status.service.ts leave in the table of statuses.
use upload.Prelude.{
  ℕ, ℕ_eq, String, String_eq, Bool, true, false, not, ◌&&◌, Option, none, some, List, [], ◌∷◌, ◌++◌,
  ◌≡◌, refl, sym, ◌∙◌, ap, arith, ◌==◌, ==-refl, if◌then◌else◌, any, filter, map_where, All, All-of,
  Bool-cases, Option-cases, inl, inr, fun_ext, subst,
}
use mathlib.Core.Bool.{false≢true}
use upload.Prelude.Sets.{any-append}
use upload.Storage.Orm.{Orm, IsSql, on_rows, by_rows}
use upload.Storage.Rows.{Regulation, RegulationStatus, Release, Snapshot}
use upload.Storage.Db.{Db}
use upload.Regulations.{
  conflicts, snapshot_if, create_regulation_snapshot, put_status, put_compliance,
}

-- An upsert that leaves its key as it is.
module _ (p : RegulationStatus → Bool) (f : RegulationStatus → RegulationStatus)
    (row : RegulationStatus) (same : (s : RegulationStatus) → p (f s) ≡ p s)
    (is_its : p row ≡ true) where
  abbrev upserted : List RegulationStatus → List RegulationStatus
  upserted rows = if any rows p then map_where p f rows else rows ++ row ∷ []

  any-update : (rows : List RegulationStatus) → any (map_where p f rows) p ≡ any rows p
  any-update [] = refl
  any-update (s ∷ rows) = elim (Bool-cases (p s)) [
    | inl hit ↦ rw hit (rw (same s ∙ hit) refl)
    | inr miss ↦ rw miss (rw miss (any-update rows))
  ]

  any-upserted : (rows : List RegulationStatus) → any (upserted rows) p ≡ true
  any-upserted rows = elim (Bool-cases (any rows p)) [
    | inl there_is ↦ rw there_is (any-update rows ∙ there_is)
    | inr none_is ↦ rw none_is (any-append rows (row ∷ []) p ∙ rw (none_is, is_its) refl)
  ]

  filter-update :
      (rows : List RegulationStatus)
      → filter (λ s. not (p s)) (map_where p f rows) ≡ filter (λ s. not (p s)) rows
  filter-update [] = refl
  filter-update (s ∷ rows) = elim (Bool-cases (p s)) [
    | inl hit ↦ rw hit (rw (same s ∙ hit) (filter-update rows))
    | inr miss ↦ rw miss (rw miss (ap (◌∷◌ s) (filter-update rows)))
  ]

  filter-snoc :
      (rows : List RegulationStatus)
      → filter (λ s. not (p s)) (rows ++ row ∷ []) ≡ filter (λ s. not (p s)) rows
  filter-snoc [] = rw is_its refl
  filter-snoc (s ∷ rows) = elim (Bool-cases (p s)) [
    | inl hit ↦ rw hit (filter-snoc rows)
    | inr miss ↦ rw miss (ap (◌∷◌ s) (filter-snoc rows))
  ]

  filter-upserted :
      (rows : List RegulationStatus)
      → filter (λ s. not (p s)) (upserted rows) ≡ filter (λ s. not (p s)) rows
  filter-upserted rows = elim (Bool-cases (any rows p)) [
    | inl there_is ↦ rw there_is (filter-update rows)
    | inr none_is ↦ rw none_is (filter-snoc rows)
  ]

  module _ (Old Good : RegulationStatus → Type 0)
      (good : (s : RegulationStatus) → Old s → Good (f s)) where
    All-update :
        (rows : List RegulationStatus)
        → All (λ s. p s ≡ true → Old s) rows
        → All (λ s. p s ≡ true → Good s) (map_where p f rows)
    All-update [] old = tt
    All-update (s ∷ rows) old = (
      elim (Bool-cases (p s)) [
        | inl hit ↦ rw hit (λ _. good s (old.0 hit))
        | inr miss ↦ rw miss (λ h. absurd (false≢true (sym miss ∙ h)))
      ],
      All-update rows old.1,
    )

    All-snoc_row :
        Good row
        → (rows : List RegulationStatus) → any rows p ≡ false
        → All (λ s. p s ≡ true → Good s) (rows ++ row ∷ [])
    All-snoc_row good_row [] h = ((λ _. good_row), tt)
    All-snoc_row good_row (r ∷ rows) h =
        ((λ hit. absurd (ground arith)), All-snoc_row good_row rows (ground arith))

    All-upserted :
        Good row
        → (rows : List RegulationStatus) → All (λ s. p s ≡ true → Old s) rows
        → All (λ s. p s ≡ true → Good s) (upserted rows)
    All-upserted good_row rows old = elim (Bool-cases (any rows p)) [
      | inl there_is ↦ rw there_is (All-update rows old)
      | inr none_is ↦ rw none_is (All-snoc_row good_row rows none_is)
    ]

-- The statuses of a regulation and a version of a project.
abbrev pub is_its : Regulation → Release → RegulationStatus → Bool
is_its r release s =
    elim s.regulation [ none ↦ false | some id ↦ id == r.id ] && s.version == release.catalog_id

conflicts-is_its :
    (r : Regulation) (release : Release) (s : RegulationStatus)
    → conflicts r release s ≡ is_its r release s
unfolding conflicts
conflicts-is_its r release s = ground arith

-- The regulation as it is when the status is set.
abbrev pub as_it_is : Regulation → Snapshot
as_it_is r = record {
  name = elim r.display_name [ none ↦ r.name | some display_name ↦ display_name ];
  description = r.description;
  config = r.config;
  type_id = r.type.id;
}

-- A status with a compliance, a value and a report, and with a snapshot exactly where it complies.
pub record IsPut (r : Regulation) (compliant : Bool) (value details : Option String)
    (s : RegulationStatus) : Type 0 where
  pub compliance : s.is_compliant ≡ compliant
  pub snapshot_taken : compliant ≡ true → s.regulation_snapshot ≡ some (as_it_is r)
  pub no_snapshot : compliant ≡ false → s.regulation_snapshot ≡ none
  pub put_value : s.value ≡ value
  pub put_details : s.report_details ≡ details

-- The statuses of a regulation and a version are as given, there is one, and no other status is
-- changed, added or removed.
pub record IsPutInto (r : Regulation) (release : Release) (compliant : Bool)
    (value details : Option String) (before after : List RegulationStatus) : Type 0 where
  pub its : All (λ s. is_its r release s ≡ true → IsPut r compliant value details s) after
  pub there_is : any after (is_its r release) ≡ true
  pub others :
      filter (λ s. not (is_its r release s)) after ≡ filter (λ s. not (is_its r release s)) before

snapshot_as_it_is : (r : Regulation) → create_regulation_snapshot r ≡ as_it_is r
unfolding create_regulation_snapshot
snapshot_as_it_is r = elim (Option-cases r.display_name) [
  | inl absent ↦ rw absent refl
  | inr (name, given) ↦ rw given refl
]

snapshot_if-IsPut :
    (r : Regulation) (compliant : Bool) (value details : Option String) (s : RegulationStatus)
    → s.is_compliant ≡ compliant
    → s.regulation_snapshot ≡ snapshot_if compliant r
    → s.value ≡ value
    → s.report_details ≡ details
    → IsPut r compliant value details s
unfolding snapshot_if
snapshot_if-IsPut r compliant value details s c h v d = record {
  compliance = c;
  snapshot_taken = λ e. h ∙ ap (λ b. snapshot_if b r) e ∙ ap some (snapshot_as_it_is r);
  no_snapshot = λ e. h ∙ ap (λ b. snapshot_if b r) e;
  put_value = v;
  put_details = d;
}

-- What the two inserts write.
abbrev set_to :
    Regulation → Bool → Option String → Option String → RegulationStatus → RegulationStatus
set_to r compliant value details s = record s {
  value = value;
  report_details = details;
  is_compliant = compliant;
  regulation_snapshot = snapshot_if compliant r;
}

abbrev comply_to : Regulation → Bool → RegulationStatus → RegulationStatus
comply_to r compliant s = record s {
  is_compliant = compliant;
  regulation_snapshot = snapshot_if compliant r;
}

abbrev new_status :
    ℕ → Regulation → Release → Bool → Option String → Option String → RegulationStatus
new_status id r release compliant value details = record {
  id = id;
  version = release.catalog_id;
  regulation = some r.id;
  regulation_snapshot = snapshot_if compliant r;
  is_compliant = compliant;
  value = value;
  report_details = details;
}

new_status-is_its :
    (id : ℕ) (r : Regulation) (release : Release) (compliant : Bool) (value details : Option String)
    → is_its r release (new_status id r release compliant value details) ≡ true
new_status-is_its id r release compliant value details =
    rw (==-refl r.id, ==-refl release.catalog_id) refl

put_status_rows :
    (orm : Orm) (id : ℕ) (r : Regulation) (release : Release) (compliant : Bool)
    (value details : Option String) (db : Db)
    → IsPutInto r release compliant value details db.statuses
        (put_status (on_rows orm) id r release compliant value details db).statuses
unfolding put_status
put_status_rows orm id r release compliant value details db =
    let f = set_to r compliant value details in
    let row = new_status id r release compliant value details in
    let mine = new_status-is_its id r release compliant value details in
    let by_key : IsPutInto r release compliant value details db.statuses
        (upserted (is_its r release) f row (λ s. refl) mine db.statuses) =
      record {
        its =
            All-upserted (is_its r release) f row (λ s. refl) mine (λ _. Unit)
              (IsPut r compliant value details)
              (λ s _. snapshot_if-IsPut r compliant value details (f s) refl refl refl refl)
              (snapshot_if-IsPut r compliant value details row refl refl refl refl) db.statuses
              (All-of _ db.statuses (λ s _. tt));
        there_is = any-upserted (is_its r release) f row (λ s. refl) mine db.statuses;
        others = filter-upserted (is_its r release) f row (λ s. refl) mine db.statuses;
      } in
    subst
      (λ p.
        IsPutInto r release compliant value details db.statuses
          (if any db.statuses p then map_where p f db.statuses else db.statuses ++ row ∷ []))
      (sym (fun_ext (conflicts-is_its r release))) by_key

put_compliance_rows :
    (orm : Orm) (id : ℕ) (r : Regulation) (release : Release) (old compliant : Bool)
    (value details : Option String) (before : List RegulationStatus) (db : Db)
    → IsPutInto r release old value details before db.statuses
    → IsPutInto r release compliant value details before
        (put_compliance (on_rows orm) id r release compliant db).statuses
unfolding put_compliance
put_compliance_rows orm id r release old compliant value details before db put =
    let f = comply_to r compliant in
    let row = new_status id r release compliant none none in
    let mine = new_status-is_its id r release compliant none none in
    let by_key : IsPutInto r release compliant value details before
        (map_where (is_its r release) f db.statuses) =
      record {
        its =
            All-update (is_its r release) f row (λ s. refl) mine (IsPut r old value details)
              (IsPut r compliant value details)
              (λ s is.
                snapshot_if-IsPut r compliant value details (f s) refl refl is.put_value
                  is.put_details)
              db.statuses put.its;
        there_is = any-update (is_its r release) f row (λ s. refl) mine db.statuses ∙ put.there_is;
        others = filter-update (is_its r release) f row (λ s. refl) mine db.statuses ∙ put.others;
      } in
    subst
      (λ p.
        IsPutInto r release compliant value details before
          (if any db.statuses p then map_where p f db.statuses else db.statuses ++ row ∷ []))
      (sym (fun_ext (conflicts-is_its r release))) (rw put.there_is by_key)

-- After a regulation status is set there is a status of the regulation and the version, each such
-- status has the new compliance, value and report, and the regulation as it is for a snapshot where
-- it complies, and none where it does not; each other status stays. To set only the compliance after
-- that changes the compliance and the snapshot in the same way, and keeps the value and the report.
pub put_status_lem :
    (orm : Orm) (id next_id : ℕ) (r : Regulation) (release : Release) (compliant complies : Bool)
    (value details : Option String) (db : Db)
    → IsSql orm
    → IsPutInto r release compliant value details db.statuses
        (put_status orm id r release compliant value details db).statuses
      × IsPutInto r release complies value details db.statuses
          (put_compliance orm next_id r release complies
            (put_status orm id r release compliant value details db)).statuses
put_status_lem orm id next_id r release compliant complies value details db sql =
    by_rows
      (λ o.
        IsPutInto r release compliant value details db.statuses
          (put_status o id r release compliant value details db).statuses
        × IsPutInto r release complies value details db.statuses
            (put_compliance o next_id r release complies
              (put_status o id r release compliant value details db)).statuses)
      orm sql
      (let put = put_status_rows orm id r release compliant value details db in
        (
          put,
          put_compliance_rows orm next_id r release compliant complies value details db.statuses
              (put_status (on_rows orm) id r release compliant value details db) put,
        ))
