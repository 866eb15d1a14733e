-- ===== src/Config/Secrets/Mask.antt =====
-- What masking hides, and that a masked content comes back as it was.
use mathlib.Core.List.{append-nil}
use upload.Prelude.{
  String, String_eq, Bool, true, false, Option, none, some, List, [], ◌∷◌, ◌++◌, ◌==◌, ◌≡◌, refl,
  ap, ◌∙◌, ◌⊎◌, inl, inr, arith, eq_iff, In, here, there, Bool-cases, if◌then◌else◌, subst,
}
use upload.Config.Json.{Value, null, bool, number, text, array, object, Fields, is_present}
use upload.Config.Paths.{follow, property, get_by_path, set_by_path}
use upload.Config.Paths.Laws.{get-set, get-set-parts, parts, follow-none}
use upload.Config.Secrets.{mask, is_mask}

follow-append : (p q : List String) (o : Option Value) → follow (p ++ q) o ≡ follow q (follow p o)
unfolding follow
follow-append [] q o = refl
follow-append (k ∷ p) q none = follow-append p q none
follow-append (k ∷ p) q (some v) = follow-append p q (property v k)

get-append :
    (p q : List String) (fields : Fields)
    → get_by_path fields (p ++ q) ≡ follow q (get_by_path fields p)
unfolding get_by_path
get-append p q fields = follow-append p q (some (object fields))

-- Two paths part, or one goes on where the other ends.
parts-cases :
    (p q : List String)
    → (parts p q ≡ true) ⊎ (((r : List String) × (q ≡ p ++ r)) ⊎ ((r : List String) × (p ≡ q ++ r)))
unfolding parts
parts-cases [] q = inr (inl (q, refl))
parts-cases (j ∷ p) [] = inr (inr (j ∷ p, refl))
parts-cases (j ∷ p) (k ∷ q) = elim (Bool-cases (j == k)) [
  | inr other ↦ inl (rw other refl)
  | inl same ↦ elim (parts-cases p q) [
    | inl apart ↦ inl (rw same apart)
    | inr (inl (r, e)) ↦ inr (inl (r, ground (arith, eq_iff j k)))
    | inr (inr (r, e)) ↦ inr (inr (r, ground (arith, eq_iff j k)))
  ]
]

-- Nothing is at the path, or the mask is.
abbrev pub hidden : Option Value → Bool
hidden o = if is_present o then is_mask o else true

follow-hidden :
    (k : String) (r : List String) (o : Option Value) → hidden o ≡ true → follow (k ∷ r) o ≡ none
unfolding follow property
follow-hidden k r none h = follow-none r
follow-hidden k r (some null) h = follow-none r
follow-hidden k r (some (text s)) h = follow-none r
follow-hidden k r (some (bool b)) h = cc
follow-hidden k r (some (number n)) h = cc
follow-hidden k r (some (array fields)) h = cc
follow-hidden k r (some (object fields)) h = cc

-- The mask is all that is found at a masked path and below it.
masked-hidden :
    (k : String) (p r : List String) (fields : Fields)
    → hidden (get_by_path (set_by_path (k ∷ p) (text "***") fields) ((k ∷ p) ++ r)) ≡ true
unfolding follow
masked-hidden k p [] fields =
    rw
      (
        get-append (k ∷ p) [] (set_by_path (k ∷ p) (text "***") fields),
        get-set k p (text "***") fields,
      )
      refl
masked-hidden k p (l ∷ r) fields =
    rw
      (
        get-append (k ∷ p) (l ∷ r) (set_by_path (k ∷ p) (text "***") fields),
        get-set k p (text "***") fields,
        follow-hidden l r (some (text "***")) refl,
      )
      refl

-- Where a path is written below a hidden one, the hidden one is written.
above-hidden :
    (k : String) (q p r : List String) (fields : Fields)
    → k ∷ q ≡ p ++ r
    → hidden (get_by_path fields p) ≡ true
    → is_present (get_by_path fields (k ∷ q)) ≡ true
    → hidden (get_by_path (set_by_path (k ∷ q) (text "***") fields) p) ≡ true
above-hidden k q p [] fields e h given =
    let same : k ∷ q ≡ p = e ∙ append-nil p in
    subst (λ path. hidden (get_by_path (set_by_path (k ∷ q) (text "***") fields) path) ≡ true) same
      (rw (get-set k q (text "***") fields) refl)
above-hidden k q p (l ∷ r) fields e h given =
    let nothing : get_by_path fields (k ∷ q) ≡ none =
      ap (get_by_path fields) e
      ∙ get-append p (l ∷ r) fields
      ∙ follow-hidden l r (get_by_path fields p) h in
    let impossible : false ≡ true = rw nothing at given in cc

set_mask-hidden :
    (q p : List String) (fields : Fields)
    → hidden (get_by_path fields p) ≡ true
    → is_present (get_by_path fields q) ≡ true
    → hidden (get_by_path (set_by_path q (text "***") fields) p) ≡ true
set_mask-hidden [] p fields h given = unfold set_by_path in h
set_mask-hidden (k ∷ q) p fields h given = elim (parts-cases (k ∷ q) p) [
  | inl apart ↦ rw (get-set-parts (k ∷ q) p (text "***") fields apart) h
  | inr (inl (r, e)) ↦ rw e (masked-hidden k q r fields)
  | inr (inr (r, e)) ↦ above-hidden k q p r fields e h given
]

-- One step of `mask`.
unfoldable pub mask_one : List String → Fields → Fields
mask_one path parsed =
    if is_present (get_by_path parsed path) then set_by_path path (text "***") parsed else parsed

mask_one-hidden :
    (q p : List String) (fields : Fields)
    → hidden (get_by_path fields p) ≡ true
    → hidden (get_by_path (mask_one q fields) p) ≡ true
unfolding mask_one
mask_one-hidden q p fields h = elim (Bool-cases (is_present (get_by_path fields q))) [
  | inr absent ↦ rw absent h
  | inl given ↦ rw given (set_mask-hidden q p fields h given)
]

mask_one_hides :
    (k : String) (p : List String) (fields : Fields)
    → hidden (get_by_path (mask_one (k ∷ p) fields) (k ∷ p)) ≡ true
unfolding mask_one
mask_one_hides k p fields = elim (Bool-cases (is_present (get_by_path fields (k ∷ p)))) [
  | inr absent ↦ rw absent (rw absent refl)
  | inl given ↦ rw given (rw (get-set k p (text "***") fields) refl)
]

mask-hidden :
    (paths : List (List String)) (p : List String) (fields : Fields)
    → hidden (get_by_path fields p) ≡ true
    → hidden (get_by_path (mask paths fields) p) ≡ true
unfolding mask mask_one
mask-hidden [] p fields h = h
mask-hidden (q ∷ paths) p fields h =
    mask-hidden paths p (mask_one q fields) (mask_one-hidden q p fields h)

-- At every sensitive path of a masked content stands the mask or no value, whatever other paths
-- are sensitive.
pub mask_hides :
    (paths : List (List String)) (key : String) (path : List String) (fields : Fields)
    → In (key ∷ path) paths
    → hidden (get_by_path (mask paths fields) (key ∷ path)) ≡ true
unfolding mask mask_one
mask_hides [] key path fields m = elim m [ ]
mask_hides (q ∷ paths) key path fields here =
    mask-hidden paths (key ∷ path) (mask_one (key ∷ path) fields) (mask_one_hides key path fields)
mask_hides (q ∷ paths) key path fields (there m) = mask_hides paths key path (mask_one q fields) m
