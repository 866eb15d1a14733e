-- ===== src/Config/Revisions/Rows.antt =====
-- What the writes of the table of revisions keep true of it.
use upload.Prelude.{
  ℕ, ℕ_eq, suc, ◌≤◌, Bool, true, false, not, ◌&&◌, List, [], ◌∷◌, ◌++◌, ◌==◌, ◌≡◌, arith, filter,
  map_where, In, Bool-cases, inl, inr,
}
use upload.Config.Rows.{RevisionStatus_eq, draft, active, archived, Revision}
use upload.Config.Store.{with_status}
use upload.Config.Revisions.Counts.{
  count, count-append, count-filter-le, count-map_where, count-split, count-le, count-In,
  count-false,
}

-- At most one draft and at most one active revision of each project; the keys are distinct and
-- below the next one.
pub record IsWell (rows : List Revision) (next : ℕ) : Type 0 where
  pub one_draft : (p : ℕ) → count (with_status p draft) rows ≤ 1
  pub one_active : (p : ℕ) → count (with_status p active) rows ≤ 1
  pub own_id : (i : ℕ) → count (λ r. r.id == i) rows ≤ 1
  pub fresh : (i : ℕ) → next ≤ i → count (λ r. r.id == i) rows ≡ 0

-- A new draft, where the project has none.
pub insert-IsWell :
    (rows : List Revision) (next : ℕ) (row : Revision)
    → IsWell rows next
    → row.id ≡ next
    → row.status ≡ draft
    → count (with_status row.project_id draft) rows ≡ 0
    → IsWell (rows ++ row ∷ []) (suc next)
insert-IsWell rows next row w is_next is_draft no_draft = record {
  one_draft = λ p. ground (arith, count-append (with_status p draft) rows row, w.one_draft p);
  one_active = λ p. ground (arith, count-append (with_status p active) rows row, w.one_active p);
  own_id = λ i.
      ground (arith, count-append (λ (r : Revision). r.id == i) rows row, w.own_id i, w.fresh i);
  fresh = λ i h. ground (arith, count-append (λ (r : Revision). r.id == i) rows row, w.fresh i);
}

pub delete-IsWell :
    (rows : List Revision) (next : ℕ) (keep : Revision → Bool)
    → IsWell rows next
    → IsWell (filter keep rows) next
delete-IsWell rows next keep w = record {
  one_draft = λ p. omega (arith, count-filter-le (with_status p draft) keep rows, w.one_draft p);
  one_active = λ p. omega (arith, count-filter-le (with_status p active) keep rows, w.one_active p);
  own_id = λ i. omega (arith, count-filter-le (λ (r : Revision). r.id == i) keep rows, w.own_id i);
  fresh =
      λ i h. omega (arith, count-filter-le (λ (r : Revision). r.id == i) keep rows, w.fresh i h);
}

-- The archived copy of the active revisions.
abbrev pub archive : ℕ → List Revision → List Revision
archive p rows = map_where (with_status p active) (λ r. record r { status = archived }) rows

abbrev archive_row : Revision → Revision
archive_row r = record r { status = archived }

module _ (p : ℕ) (rows : List Revision) where
  count-archive-le :
      (test : Revision → Bool)
      → ((x : Revision) → test (archive_row x) ≡ true → test x ≡ true)
      → count test (archive p rows) ≤ count test rows
  count-archive-le test h = omega (
    arith,
    count-map_where test (with_status p active) archive_row rows,
    count-split test (with_status p active) rows,
    count-le (λ x. with_status p active x && test (archive_row x))
        (λ x. test x && with_status p active x) rows (λ x e. ground (arith, h x)),
  )

  -- Nothing of the project is active any more.
  pub active-archive : count (with_status p active) (archive p rows) ≡ 0
  active-archive = omega (
    arith,
    count-map_where (with_status p active) (with_status p active) archive_row rows,
    count-false (λ x. with_status p active x && not (with_status p active x)) rows
        (λ x. ground arith),
    count-false (λ x. with_status p active x && with_status p active (archive_row x)) rows
        (λ x. ground arith),
  )

  pub archive-IsWell : (next : ℕ) → IsWell rows next → IsWell (archive p rows) next
  archive-IsWell next w = record {
    one_draft = λ q.
        omega (arith, count-archive-le (with_status q draft) (λ x e. ground arith), w.one_draft q);
    one_active = λ q.
        omega
          (arith, count-archive-le (with_status q active) (λ x e. ground arith), w.one_active q);
    own_id =
        λ i. omega (arith, count-archive-le (λ (r : Revision). r.id == i) (λ x e. e), w.own_id i);
    fresh = λ i h.
        omega (arith, count-archive-le (λ (r : Revision). r.id == i) (λ x e. e), w.fresh i h);
  }

-- The row with a key becomes active, where no row of its project is.
module _ (p i : ℕ) (f : Revision → Revision) (rows : List Revision) (next : ℕ)
    (w : IsWell rows next) (is_active : (x : Revision) → (f x).status ≡ active)
    (same_id : (x : Revision) → (x.id == i) ≡ true → (f x).id ≡ i)
    (none_active : count (with_status p active) rows ≡ 0)
    (only_p : (q : ℕ)
      → (q == p) ≡ false
      → count (λ x. x.id == i && (f x).project_id == q) rows ≡ 0) where
  draft-activate :
      (q : ℕ)
      → count (with_status q draft) (map_where (λ x. x.id == i) f rows)
        ≡ count (λ x. with_status q draft x && not (x.id == i)) rows
  draft-activate q = omega (
    arith,
    count-map_where (with_status q draft) (λ x. x.id == i) f rows,
    count-false (λ x. x.id == i && with_status q draft (f x)) rows
        (λ x. ground (arith, is_active x)),
  )

  active-activate_self : count (with_status p active) (map_where (λ x. x.id == i) f rows) ≤ 1
  active-activate_self = omega (
    arith,
    count-map_where (with_status p active) (λ x. x.id == i) f rows,
    count-le (λ x. with_status p active x && not (x.id == i)) (with_status p active) rows
        (λ x e. ground arith),
    count-le (λ x. x.id == i && with_status p active (f x)) (λ x. x.id == i) rows
        (λ x e. ground arith),
    none_active,
    w.own_id i,
  )

  active-activate : (q : ℕ) → count (with_status q active) (map_where (λ x. x.id == i) f rows) ≤ 1
  active-activate q = elim (Bool-cases (q == p)) [
    | inl same ↦ let e : q ≡ p = ground arith in rw e active-activate_self
    | inr other ↦ omega (
      arith,
      count-map_where (with_status q active) (λ x. x.id == i) f rows,
      count-le (λ x. with_status q active x && not (x.id == i)) (with_status q active) rows
          (λ x e. ground arith),
      count-le (λ x. x.id == i && with_status q active (f x))
          (λ x. x.id == i && (f x).project_id == q) rows (λ x e. ground arith),
      only_p q other,
      w.one_active q,
    )
  ]

  id-activate :
      (j : ℕ)
      → count (λ x. x.id == j) (map_where (λ x. x.id == i) f rows) ≤ count (λ x. x.id == j) rows
  id-activate j = omega (
    arith,
    count-map_where (λ x. x.id == j) (λ x. x.id == i) f rows,
    count-split (λ x. x.id == j) (λ x. x.id == i) rows,
    count-le (λ x. x.id == i && (f x).id == j) (λ x. x.id == j && x.id == i) rows
        (λ x e. ground (arith, same_id x)),
  )

  pub activate-IsWell : IsWell (map_where (λ x. x.id == i) f rows) next
  activate-IsWell = record {
    one_draft = λ q. omega (
      arith,
      draft-activate q,
      count-le (λ x. with_status q draft x && not (x.id == i)) (with_status q draft) rows
          (λ x e. ground arith),
      w.one_draft q,
    );
    one_active = active-activate;
    own_id = λ j. omega (arith, id-activate j, w.own_id j);
    fresh = λ j h. omega (arith, id-activate j, w.fresh j h);
  }

  -- Where it was the draft of its project, the project has none any more.
  pub no_draft-activate :
      (d : Revision)
      → In d rows
      → (d.id == i) ≡ true
      → with_status p draft d ≡ true
      → count (with_status p draft) (map_where (λ x. x.id == i) f rows) ≡ 0
  no_draft-activate d m has_id is_draft = omega (
    arith,
    draft-activate p,
    count-split (with_status p draft) (λ x. x.id == i) rows,
    count-In (λ x. with_status p draft x && x.id == i) rows d m (ground arith),
    w.one_draft p,
  )
