-- ===== src/Vault/Laws.antt =====
-- What is stored is what its reference resolves to.
use Prim.Native.String
use text.Mathlib.TextPositions.{starts_with-append}
use text.Mathlib.TextLemmas.{append_assoc}
use upload.Prelude.{
  String, String_eq, true, false, none, some, [], ◌∷◌, ◌==◌, ◌≡◌, refl, arith, eq_iff, Bool-cases,
  inl, inr, ==-refl, if◌then◌else◌,
}
use upload.Vault.Text.{
  hash, slash, has_char, cut, before_last, after_last, cut-append, drop-prefix, hash-append,
  slash-append,
}
use upload.Vault.{
  Secret, found, Server, Settings, get_field, set_field, data_address, vault_ref, is_vault_ref,
  parse_vault_ref, store_secret, resolve_secret, fetch_field, fetch_raw_secrets, or_empty,
}

-- What the documentation of the key-value store says: what is posted is what is read at the same
-- address, and other addresses keep what they have.
pub record IsKv {S : Type 0} (server : Server S) : Type 0 where
  pub get-post :
      (s t : S) (at : String) (secret : Secret)
      → server.post s at secret ≡ some t
      → server.get t at ≡ found secret
  pub get-post-ne :
      (s t : S) (at other : String) (secret : Secret)
      → server.post s at secret ≡ some t
      → (at == other) ≡ false
      → server.get t other ≡ server.get s other

pub get-set_field :
    (f g : String) (v : String) (secret : Secret)
    → get_field g (set_field f v secret) ≡ (if f == g then some v else get_field g secret)
unfolding get_field set_field
get-set_field f g v [] = refl
get-set_field f g v ((h, w) ∷ rest) =
    ground (arith, eq_iff f g, eq_iff h f, eq_iff h g, get-set_field f g v rest)

-- A reference is read back as the mount path, the secret and the field that it was made of, where
-- the name of the secret has no '/' and that of the field no '#'...
pub parse-vault_ref :
    (mount name field : String)
    → has_char slash name ≡ false
    → has_char hash field ≡ false
    → parse_vault_ref (vault_ref mount name field) ≡ (mount, name, field)
unfolding parse_vault_ref vault_ref before_last after_last
parse-vault_ref mount name field no_slash no_hash =
    let at_hash : cut hash
          (String.◌++◌ (String.◌++◌ mount (String.◌++◌ "/" name)) (String.◌++◌ "#" field))
        ≡ some (String.◌++◌ mount (String.◌++◌ "/" name), field) =
      rw (hash-append field)
        (cut-append (String.◌++◌ mount (String.◌++◌ "/" name)) "#" field no_hash) in
    let at_slash : cut slash (String.◌++◌ mount (String.◌++◌ "/" name)) ≡ some (mount, name) =
      rw (slash-append name) (cut-append mount "/" name no_slash) in
    rw
      (
        drop-prefix,
        ← append_assoc "/" name (String.◌++◌ "#" field),
        ← append_assoc mount (String.◌++◌ "/" name) (String.◌++◌ "#" field),
      )
      (rw (at_hash, before_last, after_last) (rw at_slash refl))

vault_ref-IsVaultRef :
    (mount name field : String) → is_vault_ref (vault_ref mount name field) ≡ true
unfolding is_vault_ref vault_ref
vault_ref-IsVaultRef mount name field = starts_with-append "vault:" _

vault_ref-ne-nil : (mount name field : String) → (vault_ref mount name field == "") ≡ false
vault_ref-ne-nil mount name field = elim (Bool-cases (vault_ref mount name field == "")) [
  | inr given ↦ given
  | inl absent ↦
      let e : vault_ref mount name field ≡ "" = (eq_iff (vault_ref mount name field) "").0 absent in
      let impossible : is_vault_ref "" ≡ true = rw (← e) (vault_ref-IsVaultRef mount name field) in
      unfold is_vault_ref in cc
]

module _ {S : Type 0} (server : Server S) (settings : Settings) (s t : S)
    (name field value ref : String) where
  -- The fields that a store is merged with.
  merged : Secret
  unfolding fetch_raw_secrets
  merged = elim (fetch_raw_secrets server settings s name) [ none ↦ [] | some o ↦ or_empty o ]

  -- What a store that succeeds has done.
  stored-posted :
      store_secret server settings s name field value ≡ some (t, ref)
      → (server.post s (data_address settings.mount_path name) (set_field field value merged)
          ≡ some t)
        × (ref ≡ vault_ref settings.mount_path name field)
        × (settings.enabled ≡ true)
  unfolding store_secret merged
  stored-posted h = ground arith

  fetch-posted :
      IsKv server
      → store_secret server settings s name field value ≡ some (t, ref)
      → fetch_field server t (settings.mount_path, name, field) ≡ some (some value)
  unfolding fetch_field
  fetch-posted kv h =
      let (posted, is_ref, enabled) = stored-posted h in
      rw
        (
          fetch_field,
          kv.get-post s t (data_address settings.mount_path name) (set_field field value merged)
              posted,
          get-set_field field field value merged,
          ==-refl field,
        )
        refl

-- What `storeSecret` has stored, where the name of the secret has no '/' and that of the field no
-- '#', is what `resolveSecret` gives for the reference that it returned.
pub resolve-store :
    {S : Type 0} (server : Server S) (settings : Settings) (s t : S) (name field value ref : String)
    → IsKv server
    → has_char slash name ≡ false
    → has_char hash field ≡ false
    → store_secret server settings s name field value ≡ some (t, ref)
    → resolve_secret server settings t (some ref) ≡ some (some value)
unfolding resolve_secret
resolve-store server settings s t name field value ref kv no_slash no_hash stored =
    let (posted, is_ref, enabled) = stored-posted server settings s t name field value ref stored in
    rw
      (
        is_ref,
        vault_ref-ne-nil settings.mount_path name field,
        vault_ref-IsVaultRef settings.mount_path name field,
        enabled,
        parse-vault_ref settings.mount_path name field no_slash no_hash,
      )
      (fetch-posted server settings s t name field value ref kv stored)
