-- ===== src/Config/Store.antt =====
-- The tables that apps/upload/src/config/config.service.ts keeps, what it calls, and its methods
-- as functions of the state that may end in an exception. What was written before an exception
-- stays written.
pub mod Laws
use upload.Prelude.{
  ℕ, ℕ_eq, suc, ltb, String, Bool, ◌&&◌, Option, none, some, List, [], ◌∷◌, ◌==◌, if◌then◌else◌,
  head?, includes,
}
use upload.Storage.Orm.{Orm}
use upload.Vault.{Server, Settings}
use upload.Config.Yaml.{Yaml}
use upload.Config.Rows.{
  RevisionStatus, RevisionStatus_eq, draft, active, archived, Version, Revision, Group, Association,
}

-- The state of the Vault server is `S`. The next keys are those of the tables' sequences, which
-- start at 1.
pub record Store (S : Type 0) : Type 0 where
  pub revisions : List Revision
  pub groups : List Group
  pub associations : List Association
  pub next_revision : ℕ
  pub next_group : ℕ
  pub next_association : ℕ
  pub secrets : S

-- `print` is the text of a number in a template.
pub record Env (S : Type 0) : Type 1 where
  pub orm : Orm
  pub yaml : Yaml
  pub server : Server S
  pub vault : Settings
  pub print : ℕ → String

-- A value, a NotFoundException, a BadRequestException, or an error of what is called.
pub data Answer (A : Type 0) : Type 0 where
  ok : A → Answer A
  not_found bad_request failed : Answer A

abbrev pub M : Type 0 → Type 0 → Type 0
M S A = Store S → Store S × Answer A

infixl 5 ◌>>=◌ ◌>>◌
abbrev pub continue : {S A B : Type 0} → Store S × Answer A → (A → M S B) → Store S × Answer B
continue (s, ok a) f = f a s
continue (s, not_found) f = (s, not_found)
continue (s, bad_request) f = (s, bad_request)
continue (s, failed) f = (s, failed)

abbrev pub ◌>>=◌ : {S A B : Type 0} → M S A → (A → M S B) → M S B
◌>>=◌ m f s = continue (m s) f

abbrev pub ◌>>◌ : {S A B : Type 0} → M S A → M S B → M S B
m >> k = m >>= λ _. k

abbrev pub done : {S A : Type 0} → A → M S A
done a s = (s, ok a)

abbrev pub fail : {S A : Type 0} → Answer A → M S A
fail e s = (s, e)

abbrev pub ask : {S A : Type 0} → (Store S → A) → M S A
ask f s = (s, ok (f s))

abbrev pub change : {S : Type 0} → (Store S → Store S) → M S (Unit {0})
change f s = (f s, ok tt)

-- A call of the Vault service, which may throw.
abbrev pub on_secrets : {S : Type 0} → (S → Option S) → M S (Unit {0})
on_secrets f s = elim (f s.secrets) [
  | none ↦ (s, failed)
  | some secrets ↦ (record s { secrets = secrets }, ok tt)
]

pub data ProjectType : Type 0 where
  product config config_map : ProjectType

-- What the service for projects answers.
pub record ConfigProject : Type 0 where
  pub id : ℕ
  pub name : String
  pub project_type : ProjectType

-- `requireProject` with the project that is found and the types CONFIG and CONFIG_MAP.
unfoldable pub require_config_project : {S : Type 0} → Option ConfigProject → M S ConfigProject
require_config_project none = fail not_found
require_config_project (some project) = elim project.project_type [
  | product ↦ fail bad_request
  | config ↦ done project
  | config_map ↦ done project
]

-- The rows of a project with a status.
abbrev pub with_status : ℕ → RevisionStatus → Revision → Bool
with_status project status r = r.project_id == project && r.status == status

-- `MAX` over a column, none where there is no row.
abbrev pub greater : ℕ → ℕ → ℕ
greater a b = if ltb a b then b else a

unfoldable pub max_of {ℓ} : {Row : Type ℓ} → (Row → ℕ) → List Row → Option ℕ
max_of column [] = none
max_of column (r ∷ rows) = elim (max_of column rows) [
  | none ↦ some (column r)
  | some m ↦ some (greater (column r) m)
]

abbrev pub next_after : Option ℕ → ℕ → ℕ
next_after none first = first
next_after (some m) first = suc m

module _ {S : Type 0} (env : Env S) where
  unfoldable pub next_revision_number : ℕ → Store S → ℕ
  unfolding max_of
  next_revision_number project s =
      next_after
        (max_of (λ (r : Revision). r.revision_number)
          (env.orm.find (λ r. r.project_id == project) s.revisions))
        1

  unfoldable pub next_group_position : ℕ → Store S → ℕ
  unfolding max_of
  next_group_position revision s =
      next_after
        (max_of (λ (g : Group). g.position)
          (env.orm.find (λ g. g.revision_id == revision) s.groups))
        0

  -- `save` of a new draft.
  unfoldable pub insert_draft : ℕ → ℕ → M S Revision
  insert_draft project number s =
      let row : Revision = record {
        id = s.next_revision;
        project_id = project;
        revision_number = number;
        status = draft;
        applied_by = none;
        applied_at = none;
        sem_ver = none;
      } in
      (
        record s {
          revisions = env.orm.insert row s.revisions;
          next_revision = suc s.next_revision;
        },
        ok row,
      )

  unfoldable pub find_revision : ℕ → RevisionStatus → Store S → Option Revision
  find_revision project status s = head? (env.orm.find (with_status project status) s.revisions)

  unfoldable pub groups_of : ℕ → Store S → List Group
  groups_of revision s = env.orm.find (λ g. g.revision_id == revision) s.groups

  unfoldable pub get_or_create_draft_revision : ℕ → M S Revision
  unfolding find_revision next_revision_number insert_draft
  get_or_create_draft_revision project = do
    existing ← ask (find_revision project draft)
    number ← ask (next_revision_number project)
    elim existing [ some r ↦ done r | none ↦ insert_draft project number ]

  -- `groupRepo.save`: a row without a key is inserted, any other replaced.
  unfoldable pub save_group : Group → M S Group
  save_group g s =
      if g.id == 0
      then (
        record s {
          groups = env.orm.insert (record g { id = s.next_group }) s.groups;
          next_group = suc s.next_group;
        },
        ok (record g { id = s.next_group }),
      )
      else (record s { groups = (env.orm.update (λ h. h.id == g.id) (λ _. g) s.groups).0 }, ok g)

  -- `update({ projectId, status: ACTIVE }, { status: ARCHIVED })`
  unfoldable pub archive_active : ℕ → M S (Unit {0})
  archive_active project = change λ s. record s {
    revisions =
        (env.orm.update (with_status project active) (λ r. record r { status = archived })
          s.revisions).0;
  }
