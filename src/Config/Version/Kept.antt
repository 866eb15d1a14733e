-- ===== src/Config/Version/Kept.antt =====
-- What stays of the content of a revision where nothing major, or nothing at all, has changed.
use mathlib.Core.Option
use upload.Prelude.{
  String, String_eq, Bool, true, false, not, Option, none, some, [], ◌∷◌, ◌≡◌, refl, arith, eq_iff,
  any, includes, Option-cases, Bool-cases, inl, inr, ◌==◌,
}
use upload.Config.Json.{Value, Fields, empty, field, lookup, keys}
use upload.Config.Yaml.{Yaml}
use upload.Config.Version.{
  GroupMap, get_group, key_added_or_changed, has_minor_change, has_major_change,
}

-- What fails at every entry fails at the one that is found.
any-get_group :
    (name : String) (map : GroupMap) (p : String × Fields → Bool) (f : Fields)
    → any map p ≡ false
    → get_group name map ≡ some f
    → p (name, f) ≡ false
unfolding get_group
any-get_group name [] p f h found = cc
any-get_group name ((n, e) ∷ map) p f h found =
    ground (arith, eq_iff n name, any-get_group name map p f)

any-keys :
    (key : String) (fields : Fields) (p : String → Bool) (v : Value)
    → any (keys fields) p ≡ false
    → lookup key fields ≡ some v
    → p key ≡ false
unfolding keys lookup
any-keys key empty p v h found = cc
any-keys key (field k w fields) p v h found = ground (arith, eq_iff k key, any-keys key fields p v)

lookup-keys :
    (key : String) (fields : Fields)
    → includes (keys fields) key ≡ true
    → (v : Value) × (lookup key fields ≡ some v)
unfolding keys lookup
lookup-keys key empty h = cc
lookup-keys key (field k w fields) h = elim (Bool-cases (k == key)) [
  | inl same ↦ (w, rw same refl)
  | inr other ↦ let (v, found) = lookup-keys key fields (rw other at h) in (v, rw other found)
]

module _ (prev draft : GroupMap) (name : String) where
  -- No group was removed.
  kept_group :
      (f : Fields)
      → has_major_change prev draft ≡ false
      → get_group name prev ≡ some f
      → (g : Fields) × (get_group name draft ≡ some g)
  unfolding has_major_change
  kept_group f h found = elim (Option-cases (get_group name draft)) [
    | inr (g, e) ↦ (g, e)
    | inl missing ↦
        let off =
          any-get_group name prev
            (λ entry. elim (get_group entry.0 draft) [ none ↦ true | some _ ↦ false ]) f
            (ground arith) found in
        let impossible : true ≡ false = rw missing at off in cc
  ]

  -- No group was added.
  known_group :
      (g : Fields)
      → has_major_change prev draft ≡ false
      → get_group name draft ≡ some g
      → (f : Fields) × (get_group name prev ≡ some f)
  unfolding has_major_change
  known_group g h found = elim (Option-cases (get_group name prev)) [
    | inr (f, e) ↦ (f, e)
    | inl missing ↦
        let off =
          any-get_group name draft
            (λ entry. elim (get_group entry.0 prev) [
              | none ↦ true
              | some parsed ↦ any (keys parsed) (λ key. not (includes (keys entry.1) key))
            ])
            g (ground arith) found in
        let impossible : true ≡ false = rw missing at off in cc
  ]

  -- No key was removed.
  kept_key :
      (f g : Fields) (key : String) (v : Value)
      → has_major_change prev draft ≡ false
      → get_group name prev ≡ some f
      → get_group name draft ≡ some g
      → lookup key f ≡ some v
      → (w : Value) × (lookup key g ≡ some w)
  unfolding has_major_change
  kept_key f g key v h found_f found_g there_f =
      let off =
        any-get_group name draft
          (λ entry. elim (get_group entry.0 prev) [
            | none ↦ true
            | some parsed ↦ any (keys parsed) (λ k. not (includes (keys entry.1) k))
          ])
          g (ground arith) found_g in
      let off_f : any (keys f) (λ k. not (includes (keys g) k)) ≡ false = rw found_f at off in
      let off_key = any-keys key f (λ k. not (includes (keys g) k)) v off_f there_f in
      lookup-keys key g (ground arith)

-- What a group of a revision has under a key.
unfoldable pub read : GroupMap → String → String → Option Value
read map name key = elim (get_group name map) [ none ↦ none | some fields ↦ lookup key fields ]

module _ (yaml : Yaml) (prev draft : GroupMap) (name key : String) where
  printed_key :
      (f g : Fields)
      → has_minor_change yaml prev draft ≡ false
      → get_group name prev ≡ some f
      → get_group name draft ≡ some g
      → (w : Value) → lookup key g ≡ some w
      → key_added_or_changed yaml f g key ≡ false
  unfolding has_minor_change
  printed_key f g h found_f found_g w there_g =
      let off =
        any-get_group name draft
          (λ entry. elim (get_group entry.0 prev) [
            | none ↦ false
            | some parsed ↦ any (keys entry.1) (key_added_or_changed yaml parsed entry.1)
          ])
          g h found_g in
      let off_g : any (keys g) (key_added_or_changed yaml f g) ≡ false = rw found_f at off in
      any-keys key g (key_added_or_changed yaml f g) w off_g there_g

  same_printed :
      (f g : Fields)
      → has_major_change prev draft ≡ false
      → has_minor_change yaml prev draft ≡ false
      → get_group name prev ≡ some f
      → get_group name draft ≡ some g
      → Option.map yaml.stringify (lookup key f) ≡ Option.map yaml.stringify (lookup key g)
  unfolding key_added_or_changed
  same_printed f g no_major no_minor found_f found_g = elim (Option-cases (lookup key g)) [
    | inl gone ↦ elim (Option-cases (lookup key f)) [
      | inl absent ↦ rw (gone, absent) refl
      | inr (v, there) ↦
          let (w, e) = kept_key prev draft name f g key v no_major found_f found_g there in cc
    ]
    | inr (w, there_g) ↦
        let off = printed_key f g no_minor found_f found_g w there_g in
        elim (Option-cases (lookup key f)) [
          | inl absent ↦
              let impossible : true ≡ false = rw (absent, key_added_or_changed) at off in cc
          | inr (v, there) ↦ ground (arith, eq_iff (yaml.stringify v) (yaml.stringify w))
        ]
  ]

  pub same_read :
      has_major_change prev draft ≡ false
      → has_minor_change yaml prev draft ≡ false
      → Option.map yaml.stringify (read prev name key)
        ≡ Option.map yaml.stringify (read draft name key)
  unfolding read
  same_read no_major no_minor = elim (Option-cases (get_group name prev)) [
    | inr (f, found_f) ↦
        let (g, found_g) = kept_group prev draft name f no_major found_f in
        rw (found_f, found_g, read) (same_printed f g no_major no_minor found_f found_g)
    | inl absent ↦ elim (Option-cases (get_group name draft)) [
      | inl gone ↦ rw (absent, gone, read) refl
      | inr (g, found_g) ↦ let (f, e) = known_group prev draft name g no_major found_g in cc
    ]
  ]

read-eq-some :
    (map : GroupMap) (name key : String) (v : Value)
    → read map name key ≡ some v
    → (f : Fields) × (get_group name map ≡ some f) × (lookup key f ≡ some v)
unfolding read
read-eq-some map name key v h = elim (Option-cases (get_group name map)) [
  | inl absent ↦ let impossible : none ≡ some v = rw (absent, read) at h in cc
  | inr (f, found) ↦ (f, found, (rw (found, read) at h))
]

pub kept_read :
    (prev draft : GroupMap) (name key : String) (v : Value)
    → has_major_change prev draft ≡ false
    → read prev name key ≡ some v
    → (w : Value) × (read draft name key ≡ some w)
unfolding read
kept_read prev draft name key v no_major there =
    let (f, found_f, there_f) = read-eq-some prev name key v there in
    let (g, found_g) = kept_group prev draft name f no_major found_f in
    rw (found_g, read) (kept_key prev draft name f g key v no_major found_f found_g there_f)
