-- ===== src/Releases/Set/Saved.antt =====
-- What `setRelease` of apps/upload/src/releases.service.ts saves, and how the rows move after that.
use upload.Prelude.{
  ℕ, ℕ_eq, String, String_eq, true, false, Option, none, some, List, [], ◌∷◌, ◌==◌, ◌≡◌, ◌⊎◌, inl,
  inr, refl, ◌∙◌, subst, arith, map_where, All, Distinct, Bool-cases, Option-cases,
}
use mathlib.Core.List.Forall₂.{nil, cons}
use upload.Storage.Orm.{Orm, on_rows}
use upload.Storage.Enums.{ReleaseStatus, ReleaseStatus_eq}
use upload.Storage.Rows.{Release}
use upload.Storage.Db.{Db, of_version, same_version}
use upload.Releases.{ReleaseError, get_release_entity, update_total_size}
use upload.Releases.Jobs.Invariant.{Moves, stay, LaterRows, LaterRows-refl, LaterRows-map_where}
use upload.Releases.Set.{Checked, ok, err, save_dependencies}

-- Rows that are replaced by rows of the same version stay distinct.
module _ (f : Release → Release) where
  abbrev Keeps : Release → Type 0
  Keeps x = ((f x).project ≡ x.project) × ((f x).version ≡ x.version)

  differs-map :
      (x : Release) (rows : List Release)
      → Keeps x
      → All Keeps rows
      → All (λ y. same_version x y ≡ false) rows
      → All (λ y. same_version (f x) y ≡ false) (map_where (λ _. true) f rows)
  differs-map x [] k ks d = tt
  differs-map x (y ∷ rows) k ks d =
      (ground (arith, k.0, k.1, ks.0.0, ks.0.1, d.0), differs-map x rows k ks.1 d.1)

  pub Distinct-map :
      (rows : List Release)
      → All Keeps rows
      → Distinct same_version rows
      → Distinct same_version (map_where (λ _. true) f rows)
  Distinct-map [] ks d = tt
  Distinct-map (x ∷ rows) ks d = (differs-map x rows ks.0 ks.1 d.0, Distinct-map rows ks.1 d.1)

pub answer_cases :
    {A : Type 0} (o : Checked A) → ((e : ReleaseError) × (o ≡ err e)) ⊎ ((a : A) × (o ≡ ok a))
answer_cases (err e) = inl (e, refl)
answer_cases (ok a) = inr (a, refl)

pub ok_injective : {A : Type 0} {a b : A} → ok a ≡ ok b → a ≡ b
ok_injective h = cc

-- The status of the row of an id moves from a given one.
abbrev pub MovesFrom : String → ReleaseStatus → List Release → Type 0
MovesFrom catalog_id s rows = All (λ x. x.catalog_id ≡ catalog_id → Moves s x.status) rows

pub later-MovesFrom :
    (catalog_id : String) (s : ReleaseStatus) {rows later : List Release}
    → LaterRows rows later
    → All (λ x. x.catalog_id ≡ catalog_id → x.status ≡ s) rows
    → MovesFrom catalog_id s later
later-MovesFrom catalog_id s nil h = tt
later-MovesFrom catalog_id s (cons {a = x} {b = y} k t) h = (
  λ e. subst (λ u. Moves u y.status) (h.0 (k.catalog_id ∙ e)) k.moves,
  later-MovesFrom catalog_id s t h.1,
)

pub saved-status :
    (row : Release) (catalog_id : String) (rows : List Release)
    → All
        (λ x. x.catalog_id ≡ catalog_id → x.status ≡ row.status)
        (map_where (λ x. x.catalog_id == catalog_id) (λ x. row) rows)
saved-status row catalog_id [] = tt
saved-status row catalog_id (x ∷ rows) = (
  elim (Bool-cases (x.catalog_id == catalog_id)) [
    | inl mine ↦ rw mine (λ _. refl)
    | inr other ↦
        rw other (λ e. absurd (ground (arith, (String_eq.same_iff x.catalog_id catalog_id).1 e)))
  ],
  saved-status row catalog_id rows,
)

module _ (orm : Orm) where
  pub releases-save_dependencies :
      (catalog_id : String) (entities : Option (List Release)) (db : Db)
      → (save_dependencies (on_rows orm) catalog_id entities db).releases ≡ db.releases
  unfolding save_dependencies
  releases-save_dependencies catalog_id none db = refl
  releases-save_dependencies catalog_id (some entities) db = refl

  pub update_total_size-Later :
      (project : ℕ) (version : String) (db : Db)
      → LaterRows db.releases (update_total_size (on_rows orm) project version db).releases
  unfolding update_total_size
  update_total_size-Later project version db =
      elim (Option-cases (get_release_entity (on_rows orm) db project version)) [
        | inl missing ↦ rw (missing, update_total_size) (LaterRows-refl db.releases)
        | inr (view, read) ↦
            rw (read, update_total_size)
              (LaterRows-map_where (of_version project version) _ db.releases
                (λ r _. record { catalog_id = refl; project = refl; version = refl; moves = stay }))
      ]
