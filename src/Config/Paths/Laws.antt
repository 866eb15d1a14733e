-- ===== src/Config/Paths/Laws.antt =====
-- What reading, writing and deleting at a path have to do with one another.
use upload.Prelude.{
  String, String_eq, Bool, true, false, Option, none, some, List, [], ◌∷◌, ◌==◌, ◌≡◌, refl, sym, ap,
  ◌∙◌, arith, eq_iff, if◌then◌else◌, Bool-cases, inl, inr, ==-refl,
}
use upload.Config.Json.{
  Value, null, bool, number, text, array, object, Fields, empty, field, lookup, assign, remove,
}
use upload.Config.Paths.{
  property, follow, get_by_path, descend, set_by_path, prune, put_back, delete_by_path,
}

pub lookup-assign :
    (j k : String) (v : Value) (fields : Fields)
    → lookup j (assign k v fields) ≡ (if k == j then some v else lookup j fields)
unfolding lookup assign
lookup-assign j k v empty = refl
lookup-assign j k v (field i w fields) =
    ground (arith, eq_iff k j, eq_iff i k, eq_iff i j, lookup-assign j k v fields)

pub lookup-remove :
    (j k : String) (fields : Fields)
    → lookup j (remove k fields) ≡ (if k == j then none else lookup j fields)
unfolding lookup remove
lookup-remove j k empty = ground arith
lookup-remove j k (field i w fields) =
    ground (arith, eq_iff k j, eq_iff i k, eq_iff i j, lookup-remove j k fields)

pub follow-none : (path : List String) → follow path none ≡ none
unfolding follow
follow-none [] = refl
follow-none (key ∷ path) = follow-none path

-- The fields to descend into: none where there is no object.
children : Option Value → Fields
children (some (array fields)) = fields
children (some (object fields)) = fields
children _ = empty

follow-children :
    (key : String) (path : List String) (o : Option Value)
    → follow (key ∷ path) o ≡ get_by_path (children o) (key ∷ path)
unfolding follow get_by_path property children lookup
follow-children key path none = refl
follow-children key path (some null) = refl
follow-children key path (some (bool b)) = refl
follow-children key path (some (number n)) = refl
follow-children key path (some (text s)) = refl
follow-children key path (some (array fields)) = refl
follow-children key path (some (object fields)) = refl

follow-descend :
    (key : String) (path : List String) (f : Fields → Fields) (o : Option Value)
    → follow (key ∷ path) (some (descend f o)) ≡ get_by_path (f (children o)) (key ∷ path)
unfolding follow get_by_path property children descend
follow-descend key path f none = refl
follow-descend key path f (some null) = refl
follow-descend key path f (some (bool b)) = refl
follow-descend key path f (some (number n)) = refl
follow-descend key path f (some (text s)) = refl
follow-descend key path f (some (array fields)) = refl
follow-descend key path f (some (object fields)) = refl

-- What is reached through a pruned member, where the change has no effect on an empty object.
follow-prune :
    (key j : String) (path : List String) (f : Fields → Fields) (fields : Fields) (o : Option Value)
    → f empty ≡ empty
    → lookup j fields ≡ o
    → follow (key ∷ path) (lookup j (put_back j (prune f o) fields))
      ≡ get_by_path (f (children o)) (key ∷ path)
unfolding prune put_back children
follow-prune key j path f fields (some (array inner)) e h =
    rw (lookup-assign j j (array (f inner)) fields, ==-refl j)
      (follow-children key path (some (array (f inner))))
follow-prune key j path f fields (some (object inner)) e h =
    rw (lookup-assign j j (object (f inner)) fields, ==-refl j)
      (follow-children key path (some (object (f inner))))
follow-prune key j path f fields none e h = rw (h, follow-children key path none, e) refl
follow-prune key j path f fields (some null) e h =
    rw (h, follow-children key path (some null), e) refl
follow-prune key j path f fields (some (bool b)) e h =
    rw (h, follow-children key path (some (bool b)), e) refl
follow-prune key j path f fields (some (number n)) e h =
    rw (h, follow-children key path (some (number n)), e) refl
follow-prune key j path f fields (some (text s)) e h =
    rw (h, follow-children key path (some (text s)), e) refl

get-step :
    (k : String) (path : List String) (fields : Fields)
    → get_by_path fields (k ∷ path) ≡ follow path (lookup k fields)
unfolding get_by_path follow property
get-step k path fields = refl

-- What a write puts at a path is what a read finds there.
pub get-set :
    (key : String) (path : List String) (value : Value) (fields : Fields)
    → get_by_path (set_by_path (key ∷ path) value fields) (key ∷ path) ≡ some value
unfolding set_by_path follow
get-set key [] value fields = rw (get-step, lookup-assign key key value fields, ==-refl key) refl
get-set key (next ∷ path) value fields =
    rw
      (
        get-step key (next ∷ path),
        lookup-assign key key (descend (set_by_path (next ∷ path) value) (lookup key fields))
            fields,
        ==-refl key,
        follow-descend next path,
      )
      (get-set next path value (children (lookup key fields)))

delete_nothing : (path : List String) → delete_by_path path empty ≡ empty
unfolding delete_by_path remove lookup prune put_back
delete_nothing [] = refl
delete_nothing (key ∷ []) = refl
delete_nothing (key ∷ next ∷ path) = refl

-- A path that was deleted leads nowhere.
pub get-delete :
    (key : String) (path : List String) (fields : Fields)
    → get_by_path (delete_by_path (key ∷ path) fields) (key ∷ path) ≡ none
unfolding delete_by_path follow
get-delete key [] fields = rw (get-step, lookup-remove key key fields, ==-refl key) refl
get-delete key (next ∷ path) fields =
    rw
      (
        get-step key (next ∷ path),
        follow-prune next key path (delete_by_path (next ∷ path)) fields (lookup key fields)
            (delete_nothing (next ∷ path)) refl,
      )
      (get-delete next path (children (lookup key fields)))

-- Two paths part where they differ before either ends.
unfoldable pub parts : List String → List String → Bool
parts [] q = false
parts (j ∷ p) [] = false
parts (j ∷ p) (k ∷ q) = if j == k then parts p q else true

-- A write changes nothing at a path that parts from its own.
pub get-set-parts :
    (p q : List String) (value : Value) (fields : Fields)
    → parts p q ≡ true
    → get_by_path (set_by_path p value fields) q ≡ get_by_path fields q
unfolding parts set_by_path follow get_by_path property
get-set-parts [] q value fields h = cc
get-set-parts (j ∷ p) [] value fields h = cc
get-set-parts (j ∷ []) (k ∷ q) value fields h = rw (lookup-assign k j value fields) (ground arith)
get-set-parts (j ∷ i ∷ p) (k ∷ []) value fields h =
    rw (lookup-assign k j (descend (set_by_path (i ∷ p) value) (lookup j fields)) fields)
      (ground arith)
get-set-parts (j ∷ i ∷ p) (k ∷ l ∷ q) value fields h =
    ap (follow (l ∷ q))
      (lookup-assign k j (descend (set_by_path (i ∷ p) value) (lookup j fields)) fields)
    ∙ elim (Bool-cases (j == k)) [
      | inl same ↦
          let e : j ≡ k = (eq_iff j k).0 same in
          rw same (
            follow-descend l q (set_by_path (i ∷ p) value) (lookup j fields)
            ∙ get-set-parts (i ∷ p) (l ∷ q) value (children (lookup j fields)) (rw same at h)
            ∙ sym (follow-children l q (lookup j fields))
            ∙ ap (λ m. follow (l ∷ q) (lookup m fields)) e)
      | inr other ↦ rw other refl
    ]

lookup-put_back :
    (j k : String) (o : Option Value) (fields : Fields)
    → (j == k) ≡ false
    → lookup k (put_back j o fields) ≡ lookup k fields
unfolding put_back
lookup-put_back j k none fields h = refl
lookup-put_back j k (some v) fields h = rw (lookup-assign k j v fields, h) refl

-- So does a deletion.
pub get-delete-parts :
    (p q : List String) (fields : Fields)
    → parts p q ≡ true
    → get_by_path (delete_by_path p fields) q ≡ get_by_path fields q
unfolding parts delete_by_path follow get_by_path property
get-delete-parts [] q fields h = cc
get-delete-parts (j ∷ p) [] fields h = cc
get-delete-parts (j ∷ []) (k ∷ q) fields h = rw (lookup-remove k j fields) (ground arith)
get-delete-parts (j ∷ i ∷ p) (k ∷ []) fields h =
    lookup-put_back j k (prune (delete_by_path (i ∷ p)) (lookup j fields)) fields (ground arith)
get-delete-parts (j ∷ i ∷ p) (k ∷ l ∷ q) fields h = elim (Bool-cases (j == k)) [
  | inr other ↦
      ap (follow (l ∷ q))
        (lookup-put_back j k (prune (delete_by_path (i ∷ p)) (lookup j fields)) fields other)
  | inl same ↦
      let e : j ≡ k = (eq_iff j k).0 same in
      ap
        (λ m.
          follow (l ∷ q)
            (lookup m (put_back j (prune (delete_by_path (i ∷ p)) (lookup j fields)) fields)))
        (sym e)
      ∙ follow-prune l j q (delete_by_path (i ∷ p)) fields (lookup j fields)
          (delete_nothing (i ∷ p)) refl
      ∙ get-delete-parts (i ∷ p) (l ∷ q) (children (lookup j fields)) (rw same at h)
      ∙ sym (follow-children l q (lookup j fields))
      ∙ ap (λ m. follow (l ∷ q) (lookup m fields)) e
]
