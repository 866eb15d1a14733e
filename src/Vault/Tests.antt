-- ===== src/Vault/Tests.antt =====
-- A Vault server as a list of addresses, on which the witnesses run.
use upload.Prelude.{
  String, String_eq, true, not, some, List, [], ◌∷◌, ◌==◌, ◌≡◌, refl, ==-refl, filter,
  if◌then◌else◌, arith,
}
use upload.Vault.{
  Secret, Reply, found, missing, Server, Settings, set_field, store_secret, resolve_secret,
  vault_ref,
}
use upload.Vault.Text.{has_char}
use upload.Vault.Laws.{IsKv, resolve-store}

abbrev look : List (String × Secret) → String → Reply
look [] at = missing
look ((a, secret) ∷ rest) at = if a == at then found secret else look rest at

abbrev list_server : Server (List (String × Secret))
list_server = record {
  get = look;
  post = λ s at secret. some ((at, secret) ∷ s);
  delete = λ s at. filter (λ entry. not (entry.0 == at)) s;
}

list_server-IsKv : IsKv list_server
list_server-IsKv = record {
  get-post = λ s t at secret h. ground (arith, ==-refl at);
  get-post-ne = λ s t at other secret h apart. ground (arith, apart);
}

abbrev settings : Settings
settings = record { enabled = true; mount_path = "getapp-secrets" }

resolve-store_example :
    resolve_secret list_server settings
      (("/v1/getapp-secrets/data/config-group-7-key-db__password", ("config_value", "hunter2") ∷ [])
        ∷ [])
      (some "vault:getapp-secrets/config-group-7-key-db__password#config_value")
    ≡ some (some "hunter2")
unfolding store_secret vault_ref has_char set_field
resolve-store_example =
    resolve-store list_server settings [] _ "config-group-7-key-db__password" "config_value"
      "hunter2" _ list_server-IsKv refl refl refl
