-- ===== src/Releases/Latest.antt =====
-- The latest pointer of apps/upload/src/releases.service.ts, `updateLatestForProject`.
use upload.Prelude.{
  ℕ, ℕ_eq, String_eq, ◌≤◌, Bool, true, false, Option, none, some, List, [], ◌∷◌, ◌≡◌, inl, inr,
  refl, sym, subst, ap, All-of, All-map_where, All-map_where-In, only-In, ==-refl, ◌∙◌, arith, ◌==◌,
  if◌then◌else◌, ltb, All, All-map, In, here, there, Bool-cases, Option-cases, Distinct, eq_iff,
}
use mathlib.Core.Bool.{false≢true}
use native.Mathlib.Nat.{le_refl, le_trans, le_of_eq}
use upload.Storage.Enums.{released, ReleaseStatus_eq}
use upload.Storage.Rows.{Release}
use upload.Storage.Db.{same_catalog_id}
use upload.Releases.{highest, is_released_of, latest_released, is_latest, update_latest_for_project}

-- No released release of the project has a higher sort order.
abbrev pub IsHighest : ℕ → List Release → Release → Type 0
IsHighest project rows l =
    All (λ s. is_released_of project s ≡ true → s.sort_order ≤ l.sort_order) rows

-- What the subquery selects.
abbrev pub IsSelected : ℕ → List Release → Release → Type 0
IsSelected project rows l = (is_released_of project l ≡ true) × In l rows × IsHighest project rows l

latest_released-none :
    (project : ℕ) (rows : List Release)
    → latest_released project rows ≡ none
    → All (λ s. is_released_of project s ≡ false) rows
unfolding latest_released
latest_released-none project [] h = tt
latest_released-none project (r ∷ rows) h = elim (Bool-cases (is_released_of project r)) [
  | inl mine ↦ elim (Option-cases (latest_released project rows)) [
    | inl rest ↦ ground arith
    | inr (s, rest) ↦ ground arith
  ]
  | inr other ↦ (other, latest_released-none project rows (rw other at h))
]

IsHighest-none :
    (project : ℕ) (rows : List Release) (r : Release)
    → All (λ s. is_released_of project s ≡ false) rows
    → IsHighest project rows r
IsHighest-none project rows r h =
    All-map _ _ rows (λ s out hit. absurd (false≢true (sym out ∙ hit))) h

IsHighest-le :
    (project : ℕ) (rows : List Release) (l r : Release)
    → l.sort_order ≤ r.sort_order
    → IsHighest project rows l
    → IsHighest project rows r
IsHighest-le project rows l r le h = All-map _ _ rows (λ s bound hit. le_trans (bound hit) le) h

some_eq : {r s : Release} → some r ≡ some s → r ≡ s
some_eq h = cc

select_first :
    (project : ℕ) (r : Release) (rows : List Release) (rest : Option Release)
    → is_released_of project r ≡ true
    → latest_released project rows ≡ rest
    → ((s : Release) → rest ≡ some s → IsSelected project rows s)
    → (l : Release) → highest r rest ≡ some l
    → IsSelected project (r ∷ rows) l
select_first project r rows none mine e ih l h = subst (IsSelected project (r ∷ rows)) (some_eq h) (
  mine,
  here,
  (
    (λ _. le_refl r.sort_order),
    IsHighest-none project rows r (latest_released-none project rows e),
  ),
)
select_first project r rows (some s) mine e ih l h =
    let (rel, member, top) = ih s refl in
    elim (Bool-cases (ltb r.sort_order s.sort_order)) [
      | inl less ↦
          subst (IsSelected project (r ∷ rows)) (some_eq (rw less at h))
            (rel, there member, ((λ _. ground arith), top))
      | inr more ↦ subst (IsSelected project (r ∷ rows)) (some_eq (rw more at h)) (
        mine,
        here,
        ((λ _. le_refl r.sort_order), IsHighest-le project rows s r (ground arith) top),
      )
    ]

pub latest_released_lem :
    (project : ℕ) (rows : List Release) (l : Release)
    → latest_released project rows ≡ some l
    → IsSelected project rows l
unfolding latest_released
latest_released_lem project [] l h = cc
latest_released_lem project (r ∷ rows) l h = elim (Bool-cases (is_released_of project r)) [
  | inl mine ↦
      select_first project r rows (latest_released project rows) mine refl
        (latest_released_lem project rows) l (rw mine at h)
  | inr other ↦
      let (rel, member, top) = latest_released_lem project rows l (rw other at h) in
      (rel, there member, ((λ hit. absurd (false≢true (sym other ∙ hit))), top))
]

-- A row that the update leaves marked is the selected one.
abbrev pub IsMarkedRight : ℕ → List Release → Release → Type 0
IsMarkedRight project rows r =
    r.project ≡ project → r.latest ≡ true → (r.status ≡ released) × IsHighest project rows r

marked_row :
    (project : ℕ) (rows : List Release) (l r : Release)
    → IsSelected project rows l
    → ((r.catalog_id == l.catalog_id) ≡ true → r ≡ l)
    → IsMarkedRight project rows
        (if r.project == project then record r { latest = is_latest (some l) r } else r)
marked_row project rows l r (rel, member, top) only = elim (Bool-cases (r.project == project)) [
  | inl mine ↦ rw mine λ _ marked.
      let e : r ≡ l = only marked in
      (
        rw e (ground arith),
        IsHighest-le project rows l r (le_of_eq (ap (λ x. x.sort_order) (sym e))) top,
      )
  | inr other ↦
      rw other λ e. absurd (false≢true (sym other ∙ (ℕ_eq.same_iff r.project project).1 e))
]

marked_self :
    (project : ℕ) (l : Release)
    → is_released_of project l ≡ true
    → ((if l.project == project then record l { latest = is_latest (some l) l } else l).project
          ≡ project
        → (if l.project == project then record l { latest = is_latest (some l) l } else l).latest
          ≡ false)
    → ⊥
marked_self project l rel h = elim (Bool-cases (l.project == project)) [
  | inl mine ↦
      let h' : l.project ≡ project → (l.catalog_id == l.catalog_id) ≡ false = rw mine at h in
      false≢true (sym (h' ((ℕ_eq.same_iff l.project project).0 mine)) ∙ ==-refl l.catalog_id)
  | inr other ↦ ground arith
]

abbrev is_mine : ℕ → Release → Bool
is_mine project r = r.project == project

abbrev set_latest : Option Release → Release → Release
set_latest l r = record r { latest = is_latest l r }

unmarked_row :
    (project : ℕ) (rows : List Release) (r : Release)
    → IsMarkedRight project rows (if r.project == project then record r { latest = false } else r)
unmarked_row project rows r = elim (Bool-cases (r.project == project)) [
  | inl mine ↦ rw mine (λ _ marked. absurd (false≢true marked))
  | inr other ↦
      rw other λ e. absurd (false≢true (sym other ∙ (ℕ_eq.same_iff r.project project).1 e))
]

same_catalog_id_symm : (r s : Release) → same_catalog_id r s ≡ false → same_catalog_id s r ≡ false
same_catalog_id_symm r s h =
    ground (arith, eq_iff r.catalog_id s.catalog_id, eq_iff s.catalog_id r.catalog_id)

-- After the update a release of the project that is marked as the latest is released, and no
-- released release of the project has a higher sort order; and where none of the project is marked,
-- none of it is released. Catalog ids are unique in the table.
pub update_latest_for_project_lem :
    (project : ℕ) (rows : List Release)
    → Distinct same_catalog_id rows
    → All (IsMarkedRight project rows) (update_latest_for_project project rows)
      × (All (λ r. r.project ≡ project → r.latest ≡ false) (update_latest_for_project project rows)
          → All (λ s. is_released_of project s ≡ false) rows)
unfolding update_latest_for_project
update_latest_for_project_lem project rows unique =
    elim (Option-cases (latest_released project rows)) [
      | inl unset ↦ rw unset (
        All-map_where (IsMarkedRight project rows) (is_mine project) (set_latest none) rows
            (All-of _ rows (λ r. unmarked_row project rows r)),
        λ _. latest_released-none project rows unset,
      )
      | inr (l, found) ↦
          let sel = latest_released_lem project rows l found in
          rw found (
            All-map_where (IsMarkedRight project rows) (is_mine project) (set_latest (some l)) rows
                (All-map _ _ rows (λ r only. marked_row project rows l r sel only)
                  (only-In same_catalog_id (λ r. ==-refl r.catalog_id) same_catalog_id_symm l rows
                    unique sel.1)),
            λ none_marked. absurd (
                marked_self project l sel.0 (
                  All-map_where-In (λ r. r.project ≡ project → r.latest ≡ false) (is_mine project)
                    (set_latest (some l)) rows l none_marked sel.1)),
          )
    ]
