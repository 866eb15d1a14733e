-- ===== src/Vault.antt =====
-- libs/common/src/vault/vault.service.ts: secrets in the key-value store of a Vault server, and the
-- references to them that the database keeps. The server is a parameter. Its token and the mount
-- are set up elsewhere; the custom metadata of a secret is not read, and not modelled.
pub mod Text
pub mod Laws
mod Tests
use Prim.Native.String
use text.Mathlib.Text.{starts_with}
use upload.Prelude.{
  ℕ, String, String_eq, Bool, true, false, not, Option, none, some, List, [], ◌∷◌, ◌==◌,
  if◌then◌else◌, truthy,
}
use upload.Vault.Text.{hash, slash, drop_chars, before_last, after_last}

-- The fields of a secret.
abbrev pub Secret : Type 0
Secret = List (String × String)

-- The answer to a request: the data, a 404, or any other failure.
pub data Reply : Type 0 where
  found : Secret → Reply
  missing failed : Reply

-- The server in a state `S`, by the address of the request; a write that fails gives none.
pub record Server (S : Type 0) : Type 0 where
  pub get : S → String → Reply
  pub post : S → String → Secret → Option S
  pub delete : S → String → S

pub record Settings : Type 0 where
  pub enabled : Bool
  pub mount_path : String

unfoldable pub get_field : String → Secret → Option String
get_field field [] = none
get_field field ((f, v) ∷ rest) = if f == field then some v else get_field field rest

unfoldable pub set_field : String → String → Secret → Secret
set_field field value [] = (field, value) ∷ []
set_field field value ((f, v) ∷ rest) =
    if f == field then (f, value) ∷ rest else (f, v) ∷ set_field field value rest

unfoldable pub delete_field : String → Secret → Secret
delete_field field [] = []
delete_field field ((f, v) ∷ rest) =
    if f == field then delete_field field rest else (f, v) ∷ delete_field field rest

abbrev pub address : String → String → String → String
address mount kind name = String.◌++◌ "/v1/" (String.◌++◌ mount (String.◌++◌ kind name))

abbrev pub data_address : String → String → String
data_address mount name = address mount "/data/" name

unfoldable pub is_vault_ref : String → Bool
is_vault_ref value = starts_with value "vault:"

-- `vault:{mountPath}/{secretName}#{field}`
unfoldable pub vault_ref : String → String → String → String
vault_ref mount name field =
    String.◌++◌ "vault:"
      (String.◌++◌ mount (String.◌++◌ "/" (String.◌++◌ name (String.◌++◌ "#" field))))

-- The mount path, the secret and the field of a reference.
unfoldable pub parse_vault_ref : String → String × String × String
parse_vault_ref ref =
    let without_prefix = drop_chars 6 ref in
    let path_part = before_last hash without_prefix in
    (before_last slash path_part, after_last slash path_part, after_last hash without_prefix)

-- The field at the place that a reference names.
unfoldable pub fetch_field :
    {S : Type 0} → Server S → S → String × String × String → Option (Option String)
fetch_field server s (mount, name, field) = elim (server.get s (data_address mount name)) [
  | found secret ↦ some (get_field field secret)
  | missing ↦ none
  | failed ↦ none
]

abbrev pub or_empty : Option Secret → Secret
or_empty none = []
or_empty (some secret) = secret

module _ {S : Type 0} (server : Server S) (settings : Settings) where
  -- None where the request fails.
  unfoldable pub fetch_raw_secrets : S → String → Option (Option Secret)
  fetch_raw_secrets s name = elim (server.get s (data_address settings.mount_path name)) [
    | found secret ↦ some (some secret)
    | missing ↦ some none
    | failed ↦ none
  ]

  -- The reference, or none where the call throws.
  unfoldable pub store_secret : S → String → String → String → Option (S × String)
  unfolding fetch_raw_secrets
  store_secret s name field value =
      if name == ""
      then none
      else if not settings.enabled
      then none
      else elim (fetch_raw_secrets s name) [
        | none ↦ none
        | some existing ↦
            elim (server.post s (data_address settings.mount_path name)
              (set_field field value (or_empty existing))) [
                | none ↦ none
                | some stored ↦ some (stored, vault_ref settings.mount_path name field)
              ]
      ]

  abbrev post_rest : S → String → Secret → Option S
  post_rest s name [] = some (server.delete s (address settings.mount_path "/metadata/" name))
  post_rest s name (f ∷ rest) = server.post s (data_address settings.mount_path name) (f ∷ rest)

  -- None where the call throws.
  unfoldable pub delete_secret : S → String → String → Option S
  unfolding fetch_raw_secrets
  delete_secret s name field =
      if not settings.enabled then some s else elim (fetch_raw_secrets s name) [
        | none ↦ none
        | some none ↦ some s
        | some (some existing) ↦ post_rest s name (delete_field field existing)
      ]

  -- None where the call throws.
  unfoldable pub resolve_secret : S → Option String → Option (Option String)
  resolve_secret s none = some none
  resolve_secret s (some value) =
      if value == ""
      then some (some value)
      else if not (is_vault_ref value)
      then some (some value)
      else if not settings.enabled
      then none
      else fetch_field server s (parse_vault_ref value)
