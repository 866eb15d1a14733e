-- ===== src/Config/Revisions/Invariant.antt =====
-- A project has at most one draft and one active revision, whatever is done to its revisions.
use upload.Prelude.{
  ℕ, ℕ_eq, true, none, some, List, [], ◌∷◌, ◌++◌, ◌≡◌, refl, sym, ◌∙◌, arith, filter, length, head?,
  head?-filter, find?-eq-some, In, here, there, Option-cases, inl, inr,
}
use upload.Storage.Orm.{on_rows}
use upload.Config.Rows.{RevisionStatus, RevisionStatus_eq, draft, Revision}
use upload.Config.Store.{
  Store, Env, Answer, ok, with_status, find_revision, get_or_create_draft_revision, insert_draft,
  next_revision_number,
}
use upload.Config.Revisions.Counts.{count}
use upload.Config.Revisions.Rows.{IsWell, insert-IsWell}

-- The rows of revisions are well formed.
abbrev pub StoreIsWell : {S : Type 0} → Store S → Type 0
StoreIsWell s = IsWell s.revisions s.next_revision

-- A revision is the draft of its project in the table.
pub record IsDraft {S : Type 0} (p : ℕ) (d : Revision) (s : Store S) : Type 0 where
  pub well : StoreIsWell s
  pub member : In d s.revisions
  pub is_draft : with_status p draft d ≡ true

-- An operation comes to the draft of a project.
abbrev pub GivesDraft : {S : Type 0} → ℕ → Store S × Answer Revision → Type 0
GivesDraft {S} p r = (t : Store S) × (d : Revision) × (r ≡ (t, ok d)) × IsDraft p d t

head?-eq-none {ℓ} : {A : Type ℓ} (xs : List A) → head? xs ≡ none → length xs ≡ 0
head?-eq-none [] h = refl
head?-eq-none (x ∷ xs) h = cc

In-append {ℓ} : {A : Type ℓ} (xs : List A) (a : A) → In a (xs ++ a ∷ [])
In-append [] a = here
In-append (x ∷ xs) a = there (In-append xs a)

-- The environment with the mapper's operations written out.
abbrev pub on_rows_env : {S : Type 0} → Env S → Env S
on_rows_env env = record env { orm = on_rows env.orm }

module _ {S : Type 0} (env : Env S) where
  pub found-In :
      (p : ℕ) (status : RevisionStatus) (s : Store S) (d : Revision)
      → find_revision (on_rows_env env) p status s ≡ some d
      → (with_status p status d ≡ true) × In d s.revisions
  unfolding find_revision
  found-In p status s d h =
      find?-eq-some (with_status p status) s.revisions d
        (sym (head?-filter (with_status p status) s.revisions) ∙ h)

  pub none-count :
      (p : ℕ) (status : RevisionStatus) (s : Store S)
      → find_revision (on_rows_env env) p status s ≡ none
      → count (with_status p status) s.revisions ≡ 0
  unfolding find_revision
  none-count p status s h = head?-eq-none (filter (with_status p status) s.revisions) h

  pub insert_draft-IsDraft :
      (p number : ℕ) (s : Store S)
      → StoreIsWell s
      → count (with_status p draft) s.revisions ≡ 0
      → GivesDraft p (insert_draft (on_rows_env env) p number s)
  unfolding insert_draft
  insert_draft-IsDraft p number s w no_draft = (
    _,
    _,
    refl,
    record {
      well = insert-IsWell s.revisions s.next_revision _ w refl refl no_draft;
      member = In-append s.revisions _;
      is_draft = ground arith;
    },
  )

  pub get_or_create-IsDraft :
      (p : ℕ) (s : Store S)
      → StoreIsWell s
      → GivesDraft p (get_or_create_draft_revision (on_rows_env env) p s)
  unfolding get_or_create_draft_revision
  get_or_create-IsDraft p s w = elim (Option-cases (find_revision (on_rows_env env) p draft s)) [
    | inl absent ↦ rw absent (
        insert_draft-IsDraft p (next_revision_number (on_rows_env env) p s) s w
          (none-count p draft s absent))
    | inr (d, found) ↦
        let (is_draft, member) = found-In p draft s d found in
        rw found (s, d, refl, record { well = w; member = member; is_draft = is_draft })
  ]
