-- ===== src/Storage/Orm.antt =====
-- The object-relational mapper (typeorm), which the services only call: its operations on one
-- table are parameters, and `IsSql` is what its documentation says of them. A table is the list
-- of its rows in the order in which the database returns them.
use mathlib.Core.List.Perm
use mathlib.Core.List.{Perm}
use upload.Prelude.{ℕ, Option, ◌≡◌, refl, sym, subst, Bool, not, List, ◌∷◌, ◌++◌, []}
use upload.Prelude.{length, filter, map_where, any, if◌then◌else◌}

-- `find` and `findOne` with a where-condition, `update` with the number of affected rows,
-- `delete`, `save` of a new row, an insert that updates the row it conflicts with instead, and
-- `order`, whose key may be null.
pub record Orm : Type 1 where
  pub find : {Row : Type 0} → (Row → Bool) → List Row → List Row
  pub update : {Row : Type 0} → (Row → Bool) → (Row → Row) → List Row → List Row × ℕ
  pub delete : {Row : Type 0} → (Row → Bool) → List Row → List Row
  pub insert : {Row : Type 0} → Row → List Row → List Row
  pub upsert : {Row : Type 0} → (Row → Bool) → (Row → Row) → Row → List Row → List Row
  pub order_by : {Row : Type 0} → (Row → Option ℕ) → List Row → List Row

pub record IsSql (orm : Orm) : Type 1 where
  pub find_rows :
      {Row : Type 0} (p : Row → Bool) (rows : List Row) → orm.find p rows ≡ filter p rows
  pub update_rows :
      {Row : Type 0} (p : Row → Bool) (f : Row → Row) (rows : List Row)
      → orm.update p f rows ≡ (map_where p f rows, length (filter p rows))
  pub delete_rows :
      {Row : Type 0} (p : Row → Bool) (rows : List Row)
      → orm.delete p rows ≡ filter (λ r. not (p r)) rows
  pub insert_rows :
      {Row : Type 0} (row : Row) (rows : List Row) → orm.insert row rows ≡ rows ++ row ∷ []
  pub upsert_rows :
      {Row : Type 0} (p : Row → Bool) (f : Row → Row) (row : Row) (rows : List Row)
      → orm.upsert p f row rows ≡ (if any rows p then map_where p f rows else rows ++ row ∷ [])
  pub order_perm :
      {Row : Type 0} (key : Row → Option ℕ) (rows : List Row) → Perm (orm.order_by key rows) rows

-- The same operations written out on lists; the order of a sorted result stays that of `orm`.
abbrev pub on_rows : Orm → Orm
on_rows orm = record {
  find = filter;
  update = λ p f rows. (map_where p f rows, length (filter p rows));
  delete = λ p. filter (λ r. not (p r));
  insert = λ row rows. rows ++ row ∷ [];
  upsert = λ p f row rows. if any rows p then map_where p f rows else rows ++ row ∷ [];
  order_by = orm.order_by;
}

pub orm-eq-on_rows : (orm : Orm) → IsSql orm → orm ≡ on_rows orm
orm-eq-on_rows orm sql = λ i. record {
  find = λ p rows. sql.find_rows p rows i;
  update = λ p f rows. sql.update_rows p f rows i;
  delete = λ p rows. sql.delete_rows p rows i;
  insert = λ row rows. sql.insert_rows row rows i;
  upsert = λ p f row rows. sql.upsert_rows p f row rows i;
  order_by = orm.order_by;
}

-- What holds of the operations written out holds of the mapper.
pub by_rows {ℓ} : (P : Orm → Type ℓ) (orm : Orm) → IsSql orm → P (on_rows orm) → P orm
by_rows P orm sql h = subst P (sym (orm-eq-on_rows orm sql)) h

-- A mapper that meets the assumptions, on which tests and witnesses run.
abbrev pub list_orm : Orm
list_orm = record {
  find = filter;
  update = λ p f rows. (map_where p f rows, length (filter p rows));
  delete = λ p. filter (λ r. not (p r));
  insert = λ row rows. rows ++ row ∷ [];
  upsert = λ p f row rows. if any rows p then map_where p f rows else rows ++ row ∷ [];
  order_by = λ key rows. rows;
}

pub list_orm-IsSql : IsSql list_orm
list_orm-IsSql = record {
  find_rows = λ p rows. refl;
  update_rows = λ p f rows. refl;
  delete_rows = λ p rows. refl;
  insert_rows = λ row rows. refl;
  upsert_rows = λ p f row rows. refl;
  order_perm = λ key rows. Perm.refl rows;
}
