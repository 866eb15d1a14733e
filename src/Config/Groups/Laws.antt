-- ===== src/Config/Groups/Laws.antt =====
-- The groups are written without the revisions.
use upload.Config.Yaml.{dump_yaml}
use upload.Config.Json.{Fields}
use upload.Prelude.{
  ℕ_eq, String, Option, some, ◌==◌, ◌&&◌, none, ℕ, Bool-cases, inl, inr, arith, truthy, not,
}
use upload.Config.Rows.{Group, Revision}
use upload.Config.Groups.{
  clone_group_to_revision, copy_content, with_key, store_all, write_sensitive, write_content,
  unmasked, has_none, map_group_to_dto, upsert_in, UpsertConfigGroup, find_group, new_group,
  with_columns, or_value, delete_in,
}
use upload.Config.Store.{next_group_position, ◌>>=◌, done, Env, save_group}
use upload.Config.Store.Laws.{
  Spares, Untouched-refl, bind-Spares, save_group-Spares, save_after-Untouched,
}

copy_content-Spares :
    {S : Type 0} (env : Env S) (source copy : Group) → Spares (copy_content env source copy)
unfolding copy_content
copy_content-Spares env source copy s = elim (Bool-cases (truthy source.yaml_content)) [
  | inr nothing ↦ rw nothing (Untouched-refl s)
  | inl there ↦ rw there (save_after-Untouched env _ s _)
]

pub clone_group_to_revision-Spares :
    {S : Type 0} (env : Env S) (source : Group) (target : ℕ)
    → Spares (clone_group_to_revision env source target)
unfolding clone_group_to_revision
clone_group_to_revision-Spares env source target =
    let copy : Group = record source { id = 0; revision_id = target; yaml_content = none } in
    bind-Spares (save_group env copy) (copy_content env source) (save_group-Spares env copy)
      (copy_content-Spares env source)

module _ {S : Type 0} (env : Env S) where
  with_key-Spares : (g : Group) → Spares (with_key env g)
  unfolding with_key
  with_key-Spares g s = elim (Bool-cases (g.id == 0)) [
    | inl new ↦ rw new (save_group-Spares env g s)
    | inr old ↦ rw old (Untouched-refl s)
  ]

  store_all-Spares : (g : Group) (parsed : Fields) → Spares (store_all env g parsed)
  unfolding store_all
  store_all-Spares g parsed s = record { same_revisions = ground arith; same_next = ground arith }

  write_sensitive-Spares : (parsed : Fields) (g : Group) → Spares (write_sensitive env parsed g)
  unfolding write_sensitive
  write_sensitive-Spares parsed g = bind-Spares (with_key env g) _ (with_key-Spares g) (λ keyed.
      bind-Spares (store_all env keyed parsed)
        (λ stored. done (record keyed { yaml_content = dump_yaml env.yaml stored }))
        (store_all-Spares keyed parsed) (λ stored s. Untouched-refl s))

  write_content-Spares :
      (content : Option (Option String)) (g : Group) → Spares (write_content env content g)
  unfolding write_content
  write_content-Spares none g s = Untouched-refl s
  write_content-Spares (some content) g s =
      elim (Bool-cases (not (has_none g.sensitive_keys) && env.vault.enabled)) [
        | inl sensitive ↦ rw sensitive (write_sensitive-Spares (unmasked env g content) g s)
        | inr plain ↦ rw plain (Untouched-refl s)
      ]

  save_and_show-Spares :
      (g : Group) → Spares (save_group env g >>= λ saved. done (map_group_to_dto env saved))
  save_and_show-Spares g =
      bind-Spares (save_group env g) (λ saved. done (map_group_to_dto env saved))
        (save_group-Spares env g) (λ saved s. Untouched-refl s)

  pub upsert_in-Spares : (dto : UpsertConfigGroup) (d : Revision) → Spares (upsert_in env dto d)
  unfolding upsert_in
  upsert_in-Spares dto d s =
      let position = next_group_position env d.id s in
      let g =
        with_columns dto
          (or_value (find_group env d.id dto.name s) (new_group d.id dto.name position)) in
      bind-Spares (write_content env dto.yaml_content g)
        (λ written. save_group env written >>= λ saved. done (map_group_to_dto env saved))
        (write_content-Spares dto.yaml_content g) (λ written. save_and_show-Spares written) s

  pub delete_in-Spares : (name : String) (d : Revision) → Spares (delete_in env name d)
  unfolding delete_in
  delete_in-Spares name d s = record { same_revisions = ground arith; same_next = ground arith }
