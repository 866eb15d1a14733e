-- ===== src/Config/Maps/Laws.antt =====
-- Filling a draft from the maps leaves the revisions alone.
use upload.Prelude.{ℕ, String, List, [], ◌∷◌, arith}
use upload.Config.Rows.{Group}
use upload.Config.Yaml.{dump_yaml}
use upload.Config.Maps.{
  Merged, target_group, store_merged_all, write_merged, write_all, populate_draft_from_config_maps,
  merge_revisions, applicable_revisions,
}
use upload.Config.Store.{Env, save_group, ◌>>=◌}
use upload.Config.Store.Laws.{
  Spares, Untouched-refl, continue-Untouched, bind-Spares, save_group-Spares,
}

module _ {S : Type 0} (env : Env S) where
  target_group-Spares : (draft_id : ℕ) (m : Merged) → Spares (target_group env draft_id m)
  unfolding target_group save_group
  target_group-Spares draft_id m s = record {
    same_revisions = ground arith;
    same_next = ground arith;
  }

  store_merged_all-Spares : (g : Group) (m : Merged) → Spares (store_merged_all env g m)
  unfolding store_merged_all
  store_merged_all-Spares g m s = record { same_revisions = ground arith; same_next = ground arith }

  -- What is left once the group is there.
  write_stored-Spares :
      (g : Group) (m : Merged)
      → Spares (
          store_merged_all env g m >>= λ stored.
          save_group env (record g { yaml_content = dump_yaml env.yaml stored }))
  write_stored-Spares g m =
      bind-Spares (store_merged_all env g m)
        (λ stored. save_group env (record g { yaml_content = dump_yaml env.yaml stored }))
        (store_merged_all-Spares g m) (λ stored. save_group-Spares env _)

  write_merged-Spares : (draft_id : ℕ) (m : Merged) → Spares (write_merged env draft_id m)
  unfolding write_merged
  write_merged-Spares draft_id m =
      bind-Spares (target_group env draft_id m) _ (target_group-Spares draft_id m)
        (λ g. write_stored-Spares g m)

  write_all-Spares : (draft_id : ℕ) (merged : List Merged) → Spares (write_all env draft_id merged)
  unfolding write_all
  write_all-Spares draft_id [] s = Untouched-refl s
  write_all-Spares draft_id (m ∷ merged) s =
      continue-Untouched s (write_merged env draft_id m s) (λ _. write_all env draft_id merged)
        (write_merged-Spares draft_id m s) (λ _. write_all-Spares draft_id merged)

  pub populate-Spares :
      (draft_id : ℕ) (device_id : String) (device_type_ids : List ℕ)
      → Spares (populate_draft_from_config_maps env draft_id device_id device_type_ids)
  unfolding populate_draft_from_config_maps
  populate-Spares draft_id device_id device_type_ids s =
      write_all-Spares draft_id
        (merge_revisions env s (applicable_revisions env device_type_ids device_id s) []) s
