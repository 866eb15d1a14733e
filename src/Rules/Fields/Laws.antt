-- ===== src/Rules/Fields/Laws.antt =====
-- The table of fields does what a set of names does.
use upload.Prelude.{
  ℕ_eq, String, String_eq, Bool, true, false, not, ◌&&◌, ◌||◌, Option, some, List, [], ◌∷◌, ◌==◌,
  ◌≡◌, refl, sym, ap, ap₂, ◌∙◌, arith, any, All, All-map, filter, map, head?, includes, Bool-cases,
  Option-cases, inl, inr, eq_iff, fun_ext, found-any, missing-any, any-map, All-filter,
  Distinct-filter, All-snoc, Distinct-snoc, All-missing, only-In, find?-eq-some, head?-filter,
  ==-refl,
}
use mathlib.Core.Bool.{false≢true, or_assoc}
use upload.Prelude.Sets.{any-append}
use upload.Storage.Orm.{Orm, IsSql, on_rows, by_rows}
use upload.Rules.Fields.{
  RuleField, FieldTable, FieldData, Answer, done, named, add_rule_field, remove_rule_field,
  add_each, sync_device_fields, new_field, label_of, description_of,
}
use upload.Rules.Fields.Set.{
  Call, add_field, remove_field, sync_fields, run, on_set, run_all, all_on_set, names_of, same_name,
  same_id, IsTable,
}

-- The answer of a call on the table, and the table, are those on the set.
record Refines (r : FieldTable × Answer) (spec : (String → Bool) × Answer) : Type 0 where
  table : IsTable r.0
  names : names_of r.0 ≡ spec.0
  answer : r.1 ≡ spec.1

remove-names :
    (rows : List RuleField) (row : RuleField) (name n : String)
    → All (λ (f : RuleField). (f.id == row.id) ≡ (f.name == name)) rows
    → any (filter (λ (f : RuleField). not (f.id == row.id)) rows) (named n)
      ≡ (any rows (named n) && not (n == name))
remove-names [] row name n h = refl
remove-names (f ∷ rows) row name n h = ground (
  arith,
  eq_iff f.name n,
  eq_iff f.name name,
  eq_iff n name,
  h.0,
  remove-names rows row name n h.1,
)

All-map₂ :
    (P Q R : RuleField → Type 0) (rows : List RuleField)
    → ((f : RuleField) → P f → Q f → R f)
    → All P rows
    → All Q rows
    → All R rows
All-map₂ P Q R [] k h g = tt
All-map₂ P Q R (f ∷ rows) k h g = (k f h.0 g.0, All-map₂ P Q R rows k h.1 g.1)

-- The row of a name and the row of its key are one.
one-row :
    (f row : RuleField) (name : String)
    → named name row ≡ true
    → (same_id f row ≡ true → f ≡ row)
    → (same_name f row ≡ true → f ≡ row)
    → (f.id == row.id) ≡ (f.name == name)
one-row f row name is_row by_id by_name = elim (Bool-cases (same_id f row)) [
  | inl same ↦ let e : f ≡ row = by_id same in rw (e, ==-refl row.id, is_row) refl
  | inr other ↦ elim (Bool-cases (f.name == name)) [
    | inr apart ↦ rw (other, apart) refl
    | inl named_so ↦
        let e : f ≡ row =
          by_name
            (ground (arith, eq_iff f.name row.name, eq_iff f.name name, eq_iff row.name name)) in
        absurd (false≢true (sym other ∙ rw e (==-refl row.id)))
  ]
]

row-alone :
    (t : FieldTable) (name : String) (row : RuleField)
    → IsTable t
    → head? (filter (named name) t.rows) ≡ some row
    → All (λ (f : RuleField). (f.id == row.id) ≡ (f.name == name)) t.rows
row-alone t name row w found =
    let (is_row, member) =
      find?-eq-some (named name) t.rows row (sym (head?-filter (named name) t.rows) ∙ found) in
    All-map₂ (λ f. same_id f row ≡ true → f ≡ row) (λ f. same_name f row ≡ true → f ≡ row) _ t.rows
      (λ f by_id by_name. one-row f row name is_row by_id by_name)
      (only-In same_id (λ f. ==-refl f.id) (λ f g h. ground arith) row t.rows w.ids_distinct member)
      (only-In same_name (λ f. ==-refl f.name)
        (λ f g h. ground (arith, eq_iff f.name g.name, eq_iff g.name f.name)) row t.rows
        w.names_distinct member)

module _ (orm : Orm) where
  new_field-IsTable :
      (f : FieldData) (label : String) (description : Option String) (t : FieldTable)
      → IsTable t
      → any t.rows (named f.name) ≡ false
      → IsTable (new_field (on_rows orm) f label description t)
  new_field-IsTable f label description t w h = record {
    names_distinct =
        Distinct-snoc same_name t.rows _ w.names_distinct (All-missing (named f.name) t.rows h);
    ids_distinct =
        Distinct-snoc same_id t.rows _ w.ids_distinct
          (All-map _ _ t.rows (λ a below. ground arith) w.ids_below);
    ids_below =
        All-snoc _ t.rows _ (All-map _ _ t.rows (λ a below. omega arith) w.ids_below) (omega arith);
  }

  add-Refines :
      (f : FieldData) (label : String) (description : Option String) (t : FieldTable)
      → IsTable t
      → Refines
          (add_rule_field (on_rows orm) f label description t)
          (on_set (add_field f label description) (names_of t))
  unfolding add_rule_field on_set
  add-Refines f label description t w = elim (Option-cases (head? (filter (named f.name) t.rows))) [
    | inr (row, found) ↦
        let there = found-any (named f.name) t.rows row found in
        rw (add_rule_field, on_set, found, there)
          (record { table = w; names = refl; answer = refl })
    | inl missing ↦
        (let absent = missing-any (named f.name) t.rows missing in
          rw (add_rule_field, on_set, missing, absent)
            (record {
              table = new_field-IsTable f label description t w absent;
              names = fun_ext λ n. rw (any-append t.rows _ (named n)) (ground arith);
              answer = refl;
            }))
  ]

  remove-Refines :
      (name : String) (t : FieldTable)
      → IsTable t
      → Refines (remove_rule_field (on_rows orm) name t) (on_set (remove_field name) (names_of t))
  unfolding remove_rule_field on_set
  remove-Refines name t w = elim (Option-cases (head? (filter (named name) t.rows))) [
    | inl missing ↦
        let absent = missing-any (named name) t.rows missing in
        rw (remove_rule_field, on_set, missing, absent)
          (record { table = w; names = refl; answer = refl })
    | inr (row, found) ↦
        (let there = found-any (named name) t.rows row found in
          rw (remove_rule_field, on_set, found, there)
            (record {
              table = record {
                names_distinct = Distinct-filter same_name _ t.rows w.names_distinct;
                ids_distinct = Distinct-filter same_id _ t.rows w.ids_distinct;
                ids_below = All-filter _ _ t.rows w.ids_below;
              };
              names = fun_ext λ n. remove-names t.rows row name n (row-alone t name row w found);
              answer = refl;
            }))
  ]

  add-names :
      (f : FieldData) (label : String) (description : Option String) (t : FieldTable)
      → IsTable t
      → (n : String)
      → names_of (add_rule_field (on_rows orm) f label description t).0 n
        ≡ (names_of t n || f.name == n)
  unfolding on_set
  add-names f label description t w n =
      let r = add-Refines f label description t w in
      ap (λ set. set n) r.names ∙ elim (Bool-cases (names_of t f.name)) [
        | inr new ↦ rw new refl
        | inl old ↦ rw old (elim (Bool-cases (f.name == n)) [
          | inr apart ↦ rw apart (ground arith)
          | inl same ↦
              let e : f.name ≡ n = (eq_iff f.name n).0 same in rw same (rw (rw e at old) refl)
        ])
      ]

  -- The fields that are added one by one.
  add_each-Refines :
      (reported : String) (fields : List FieldData) (t : FieldTable)
      → IsTable t
      → IsTable (add_each (on_rows orm) reported fields t)
        × ((n : String)
            → names_of (add_each (on_rows orm) reported fields t) n
              ≡ (names_of t n || any fields (λ f. f.name == n)))
  unfolding add_each
  add_each-Refines reported [] t w = (w, λ n. ground arith)
  add_each-Refines reported (f ∷ fields) t w =
      let first = add-Refines f (label_of f) (description_of reported f) t w in
      let next = (add_rule_field (on_rows orm) f (label_of f) (description_of reported f) t).0 in
      let (w', names) = add_each-Refines reported fields next first.table in
      (
        w',
        λ n.
            (names n
              ∙ ap (λ b. b || any fields (λ g. g.name == n))
                  (add-names f (label_of f) (description_of reported f) t w n)
              ∙ or_assoc (names_of t n) (f.name == n) (any fields (λ g. g.name == n))),
      )

  names-includes :
      (rows : List RuleField) (n : String)
      → includes (map (λ (f : RuleField). f.name) rows) n ≡ any rows (named n)
  names-includes rows n = any-map (λ (f : RuleField). f.name) (λ x. x == n) rows

  -- A name that is not there before is there after, where a device reports it.
  any-new :
      (known : String → Bool) (fields : List FieldData) (n : String)
      → (known n || any (filter (λ (f : FieldData). not (known f.name)) fields) (λ f. f.name == n))
        ≡ (known n || any fields (λ f. f.name == n))
  any-new known [] n = refl
  any-new known (f ∷ fields) n = ground (arith, eq_iff f.name n, any-new known fields n)

  sync-Refines :
      (reported : String) (fields : List FieldData) (t : FieldTable)
      → IsTable t
      → Refines
          (sync_device_fields (on_rows orm) reported fields t, done)
          (on_set (sync_fields reported fields) (names_of t))
  unfolding sync_device_fields on_set
  sync-Refines reported fields t w =
      let same_test : (λ (f : FieldData).
        not (includes (map (λ (g : RuleField). g.name) t.rows) f.name))
          ≡ (λ (f : FieldData). not (names_of t f.name)) =
        fun_ext λ f. ap not (names-includes t.rows f.name) in
      let (w', names) =
        add_each-Refines reported (filter (λ (f : FieldData). not (names_of t f.name)) fields) t
          w in
      rw same_test (record {
        table = w';
        names = fun_ext λ n. names n ∙ any-new (names_of t) fields n;
        answer = refl;
      })

  run-Refines :
      (c : Call) (t : FieldTable)
      → IsTable t
      → Refines (run (on_rows orm) c t) (on_set c (names_of t))
  unfolding run
  run-Refines (add_field f label description) t w = add-Refines f label description t w
  run-Refines (remove_field name) t w = remove-Refines name t w
  run-Refines (sync_fields reported fields) t w = sync-Refines reported fields t w

  run_all-Refines :
      (calls : List Call) (t : FieldTable)
      → IsTable t
      → IsTable (run_all (on_rows orm) calls t).0
        × (names_of (run_all (on_rows orm) calls t).0 ≡ (all_on_set calls (names_of t)).0)
        × ((run_all (on_rows orm) calls t).1 ≡ (all_on_set calls (names_of t)).1)
  unfolding run_all all_on_set
  run_all-Refines [] t w = (w, refl, refl)
  run_all-Refines (c ∷ calls) t w =
      let first = run-Refines c t w in
      let (w', names, answers) = run_all-Refines calls (run (on_rows orm) c t).0 first.table in
      (
        w',
        names ∙ ap (λ set. (all_on_set calls set).0) first.names,
        ap₂ ◌∷◌ first.answer (answers ∙ ap (λ set. (all_on_set calls set).1) first.names),
      )

-- From a table whose names and keys are unique and whose keys are below the next one, any calls that
-- add a field, remove one, or add those that a device reports lead to such a table; its names are the
-- set that the calls make of the names before, and each call is answered as the set answers it: a
-- name that is there is not added again, and one that is not there is not removed.
pub run_all_refines :
    (orm : Orm) (calls : List Call) (t : FieldTable)
    → IsSql orm
    → IsTable t
    → IsTable (run_all orm calls t).0
      × (names_of (run_all orm calls t).0 ≡ (all_on_set calls (names_of t)).0)
      × ((run_all orm calls t).1 ≡ (all_on_set calls (names_of t)).1)
run_all_refines orm calls t sql w =
    by_rows
      (λ orm.
        IsTable (run_all orm calls t).0
        × (names_of (run_all orm calls t).0 ≡ (all_on_set calls (names_of t)).0)
        × ((run_all orm calls t).1 ≡ (all_on_set calls (names_of t)).1))
      orm sql (run_all-Refines orm calls t w)
