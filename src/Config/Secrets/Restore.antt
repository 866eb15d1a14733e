-- ===== src/Config/Secrets/Restore.antt =====
-- A masked content that comes back is restored.
use upload.Prelude.{
  String, String_eq, true, Option, none, some, List, [], ◌∷◌, ◌≡◌, refl, ap, ◌∙◌, inl, inr, arith,
  eq_iff, All, All-In, All-map, In, here, there, Bool-cases, if◌then◌else◌,
}
use upload.Config.Json.{Value, null, bool, number, text, array, object, Fields, is_present}
use upload.Config.Paths.{get_by_path}
use upload.Config.Paths.Laws.{get-set, get-set-parts, get-delete-parts, parts}
use upload.Config.Secrets.{mask, is_mask, value_or_null, restore, restore_key}
use upload.Config.Secrets.Mask.{mask_one}

-- No path of the list is another one or goes on from another one.
abbrev pub Parting : List (List String) → Type 0
Parting [] = Unit {0}
Parting (p ∷ paths) = All (λ q. parts p q ≡ true) paths × Parting paths

parts_symm : (p q : List String) → parts p q ≡ true → parts q p ≡ true
unfolding parts
parts_symm [] q h = cc
parts_symm (j ∷ p) [] h = cc
parts_symm (j ∷ p) (k ∷ q) h = ground (arith, eq_iff j k, eq_iff k j, parts_symm p q)

-- What a mask shows of a value.
abbrev pub shown : Option Value → Option Value
shown o = if is_present o then some (text "***") else o

some-value_or_null : (o : Option Value) → is_present o ≡ true → some (value_or_null o) ≡ o
some-value_or_null none h = cc
some-value_or_null (some v) h = refl

is_mask-shown : (o : Option Value) → is_mask (shown o) ≡ is_present o
is_mask-shown none = refl
is_mask-shown (some null) = refl
is_mask-shown (some (bool b)) = refl
is_mask-shown (some (number n)) = refl
is_mask-shown (some (text s)) = refl
is_mask-shown (some (array fields)) = refl
is_mask-shown (some (object fields)) = refl

module _ (q p : List String) (apart : parts q p ≡ true) where
  mask_one-parts : (fields : Fields) → get_by_path (mask_one q fields) p ≡ get_by_path fields p
  unfolding mask_one
  mask_one-parts fields = elim (Bool-cases (is_present (get_by_path fields q))) [
    | inr absent ↦ rw absent refl
    | inl given ↦ rw given (get-set-parts q p (text "***") fields apart)
  ]

mask-parts :
    (paths : List (List String)) (p : List String) (fields : Fields)
    → All (λ q. parts q p ≡ true) paths
    → get_by_path (mask paths fields) p ≡ get_by_path fields p
unfolding mask mask_one
mask-parts [] p fields h = refl
mask-parts (q ∷ paths) p fields h =
    mask-parts paths p (mask_one q fields) h.1 ∙ mask_one-parts q p h.0 fields

mask_one-shown :
    (k : String) (p : List String) (fields : Fields)
    → get_by_path (mask_one (k ∷ p) fields) (k ∷ p) ≡ shown (get_by_path fields (k ∷ p))
unfolding mask_one
mask_one-shown k p fields = elim (Bool-cases (is_present (get_by_path fields (k ∷ p)))) [
  | inr absent ↦ rw absent refl
  | inl given ↦ rw given (get-set k p (text "***") fields)
]

mask-shown :
    (paths : List (List String)) (k : String) (p : List String) (fields : Fields)
    → Parting paths
    → In (k ∷ p) paths
    → get_by_path (mask paths fields) (k ∷ p) ≡ shown (get_by_path fields (k ∷ p))
unfolding mask mask_one
mask-shown [] k p fields apart m = elim m [ ]
mask-shown (q ∷ paths) k p fields apart here =
    mask-parts paths (k ∷ p) (mask_one (k ∷ p) fields)
      (All-map _ _ paths (λ r h. parts_symm (k ∷ p) r h) apart.0)
    ∙ mask_one-shown k p fields
mask-shown (q ∷ paths) k p fields apart (there m) =
    mask-shown paths k p (mask_one q fields) apart.1 m
    ∙ ap shown
        (mask_one-parts q (k ∷ p) (All-In (λ r. parts q r ≡ true) paths (k ∷ p) apart.0 m) fields)

module _ (existing : Fields) where
  restore_key-parts :
      (q p : List String) (parsed : Fields)
      → parts q p ≡ true
      → get_by_path (restore_key existing q parsed) p ≡ get_by_path parsed p
  unfolding restore_key
  restore_key-parts q p parsed apart = elim (Bool-cases (is_mask (get_by_path parsed q))) [
    | inr plain ↦ rw plain refl
    | inl masked ↦ elim (Bool-cases (is_present (get_by_path existing q))) [
      | inl given ↦
          rw (masked, given)
            (get-set-parts q p (value_or_null (get_by_path existing q)) parsed apart)
      | inr absent ↦ rw (masked, absent) (get-delete-parts q p parsed apart)
    ]
  ]

  restore-parts :
      (paths : List (List String)) (p : List String) (parsed : Fields)
      → All (λ q. parts q p ≡ true) paths
      → get_by_path (restore existing paths parsed) p ≡ get_by_path parsed p
  unfolding restore
  restore-parts [] p parsed h = refl
  restore-parts (q ∷ paths) p parsed h =
      restore-parts paths p (restore_key existing q parsed) h.1 ∙ restore_key-parts q p parsed h.0

  restore_key-shown :
      (k : String) (p : List String) (parsed : Fields)
      → get_by_path parsed (k ∷ p) ≡ shown (get_by_path existing (k ∷ p))
      → get_by_path (restore_key existing (k ∷ p) parsed) (k ∷ p) ≡ get_by_path existing (k ∷ p)
  unfolding restore_key
  restore_key-shown k p parsed h =
      let masked : is_mask (get_by_path parsed (k ∷ p))
          ≡ is_present (get_by_path existing (k ∷ p)) =
        ap is_mask h ∙ is_mask-shown (get_by_path existing (k ∷ p)) in
      elim (Bool-cases (is_present (get_by_path existing (k ∷ p)))) [
        | inl given ↦
            rw (masked, given)
              (get-set k p (value_or_null (get_by_path existing (k ∷ p))) parsed
                ∙ some-value_or_null (get_by_path existing (k ∷ p)) given)
        | inr absent ↦ rw (masked, absent) (rw absent at h)
      ]

  restore-shown :
      (paths : List (List String)) (k : String) (p : List String) (parsed : Fields)
      → Parting paths
      → In (k ∷ p) paths
      → get_by_path parsed (k ∷ p) ≡ shown (get_by_path existing (k ∷ p))
      → get_by_path (restore existing paths parsed) (k ∷ p) ≡ get_by_path existing (k ∷ p)
  unfolding restore
  restore-shown [] k p parsed apart m h = elim m [ ]
  restore-shown (q ∷ paths) k p parsed apart here h =
      restore-parts paths (k ∷ p) (restore_key existing (k ∷ p) parsed)
        (All-map _ _ paths (λ r e. parts_symm (k ∷ p) r e) apart.0)
      ∙ restore_key-shown k p parsed h
  restore-shown (q ∷ paths) k p parsed apart (there m) h =
      restore-shown paths k p (restore_key existing q parsed) apart.1 m (
        restore_key-parts q (k ∷ p) parsed (All-In (λ r. parts q r ≡ true) paths (k ∷ p) apart.0 m)
        ∙ h)

-- A content that is sent back as it was shown has, after the masks are replaced, at each sensitive
-- path the value that it had, where no sensitive path is another one or goes on from another one.
pub restore-mask :
    (paths : List (List String)) (key : String) (path : List String) (existing : Fields)
    → Parting paths
    → In (key ∷ path) paths
    → get_by_path (restore existing paths (mask paths existing)) (key ∷ path)
      ≡ get_by_path existing (key ∷ path)
restore-mask paths key path existing apart m =
    restore-shown existing paths key path (mask paths existing) apart m
      (mask-shown paths key path existing apart m)

-- It also has what it had at each path that parts from the sensitive ones.
restore-mask-parts :
    (paths : List (List String)) (p : List String) (existing : Fields)
    → All (λ q. parts q p ≡ true) paths
    → get_by_path (restore existing paths (mask paths existing)) p ≡ get_by_path existing p
restore-mask-parts paths p existing apart =
    restore-parts existing paths p (mask paths existing) apart ∙ mask-parts paths p existing apart
