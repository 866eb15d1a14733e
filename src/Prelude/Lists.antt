-- ===== src/Prelude/Lists.antt =====
-- Lists measured by native numbers and filtered by Boolean tests.
use Prim.Native.Nat.{ℕ, zero, suc, ◌≤◌}
use mathlib.Core.Path.{◌≡◌, refl, sym, ◌∙◌, ap, ap₂, subst}
use mathlib.Core.Logic.{inl, inr}
use mathlib.Core.Bool.{Bool, true, false, ◌&&◌, ◌||◌, false≢true}
use mathlib.Core.Option.{Option, none, some}
use mathlib.Core.List.{List, [], ◌∷◌, map}
use native.Mathlib.Omega.{arith}
use upload.Prelude.Tests.{if◌then◌else◌, Eq, ◌==◌, Bool-cases}

module _ {ℓ} {A : Type ℓ} where
  abbrev pub length : List A → ℕ
  length [] = 0
  length (x ∷ xs) = suc (length xs)

  abbrev pub filter : (A → Bool) → List A → List A
  filter p [] = []
  filter p (x ∷ xs) = if p x then x ∷ filter p xs else filter p xs

  abbrev pub any : List A → (A → Bool) → Bool
  any [] p = false
  any (x ∷ xs) p = p x || any xs p

  abbrev pub all : List A → (A → Bool) → Bool
  all [] p = true
  all (x ∷ xs) p = p x && all xs p

  -- JavaScript's `Array.find`.
  abbrev pub find? : (A → Bool) → List A → Option A
  find? p [] = none
  find? p (x ∷ xs) = if p x then some x else find? p xs

  abbrev pub head? : List A → Option A
  head? [] = none
  head? (x ∷ xs) = some x

  -- Replaces the elements that pass the test.
  abbrev pub map_where : (A → Bool) → (A → A) → List A → List A
  map_where p f xs = map (λ x. if p x then f x else x) xs

  abbrev pub take : ℕ → List A → List A
  take zero xs = []
  take (suc n) [] = []
  take (suc n) (x ∷ xs) = x ∷ take n xs

  abbrev pub drop : ℕ → List A → List A
  drop zero xs = xs
  drop (suc n) [] = []
  drop (suc n) (x ∷ xs) = drop n xs

  abbrev pub filter_map {κ} : {B : Type κ} → (A → Option B) → List A → List B
  filter_map f [] = []
  filter_map f (x ∷ xs) = elim (f x) [ none ↦ filter_map f xs | some b ↦ b ∷ filter_map f xs ]

  -- `All P xs`: each element satisfies `P`.
  abbrev pub All {κ} : (A → Type κ) → List A → Type κ
  All P [] = Unit
  All P (x ∷ xs) = P x × All P xs

  pub data In (a : A) : List A → Type ℓ where
    here : {xs : List A} → In a (a ∷ xs)
    there : {x : A} {xs : List A} → In a xs → In a (x ∷ xs)

  pub length-filter-le : (p : A → Bool) (xs : List A) → length (filter p xs) ≤ length xs
  length-filter-le p [] = omega arith
  length-filter-le p (x ∷ xs) = ground (arith, length-filter-le p xs)

  pub head?-filter : (p : A → Bool) (xs : List A) → head? (filter p xs) ≡ find? p xs
  head?-filter p [] = refl
  head?-filter p (x ∷ xs) = ground (arith, head?-filter p xs)

  pub length-map_where :
      (p : A → Bool) (f : A → A) (xs : List A) → length (map_where p f xs) ≡ length xs
  length-map_where p f [] = refl
  length-map_where p f (x ∷ xs) = ap suc (length-map_where p f xs)

module _ {ℓ} {A : Type ℓ} ⦃e : Eq A⦄ where
  -- JavaScript's `Array.includes`.
  abbrev pub includes : List A → A → Bool
  includes xs a = any xs (λ x. x == a)

module _ {ℓ} {A : Type ℓ} where
  pub All-of {κ} : (P : A → Type κ) (xs : List A) → ((x : A) → P x) → All P xs
  All-of P [] h = tt
  All-of P (x ∷ xs) h = (h x, All-of P xs h)

  pub All-map {κ μ} :
      (P : A → Type κ) (Q : A → Type μ) (xs : List A) → ((x : A) → P x → Q x) → All P xs → All Q xs
  All-map P Q [] f h = tt
  All-map P Q (x ∷ xs) f h = (f x h.0, All-map P Q xs f h.1)

  -- Updates in a row are one update where they agree with it on each element.
  pub map_where-eq :
      (p : A → Bool) (f g : A → A) (xs : List A)
      → All (λ x. g x ≡ (if p x then f x else x)) xs
      → map g xs ≡ map_where p f xs
  map_where-eq p f g [] h = refl
  map_where-eq p f g (x ∷ xs) h = ap₂ ◌∷◌ h.0 (map_where-eq p f g xs h.1)

  pub map-map : (f g : A → A) (xs : List A) → map f (map g xs) ≡ map (λ x. f (g x)) xs
  map-map f g [] = refl
  map-map f g (x ∷ xs) = ap (◌∷◌ (f (g x))) (map-map f g xs)

  pub map-id : (xs : List A) → map (λ x. x) xs ≡ xs
  map-id [] = refl
  map-id (x ∷ xs) = ap (◌∷◌ x) (map-id xs)

  pub filter-none : (xs : List A) → filter (λ _. false) xs ≡ []
  filter-none [] = refl
  filter-none (x ∷ xs) = filter-none xs

  pub any-filter : (q p : A → Bool) (xs : List A) → any (filter q xs) p ≡ any xs (λ x. q x && p x)
  any-filter q p [] = refl
  any-filter q p (x ∷ xs) = ground (arith, any-filter q p xs)

  pub find?-eq-some :
      (p : A → Bool) (xs : List A) (a : A) → find? p xs ≡ some a → (p a ≡ true) × In a xs
  find?-eq-some p [] a h = cc
  find?-eq-some p (x ∷ xs) a h = elim (Bool-cases (p x)) [
    | inl hit ↦ let e : x ≡ a = ground arith in (rw (← e) hit, subst (λ y. In y (x ∷ xs)) e here)
    | inr miss ↦ let (holds, member) = find?-eq-some p xs a (ground arith) in (holds, there member)
  ]

  pub All-In {κ} : (P : A → Type κ) (xs : List A) (a : A) → All P xs → In a xs → P a
  All-In P [] a h m = elim m [ ]
  All-In P (x ∷ xs) a h here = h.0
  All-In P (x ∷ xs) a h (there m) = All-In P xs a h.1 m

  -- No two elements of the list stand in the relation of a test.
  abbrev pub Distinct : (A → A → Bool) → List A → Type ℓ
  Distinct same [] = Unit
  Distinct same (x ∷ xs) = All (λ y. same x y ≡ false) xs × Distinct same xs

  -- Where the test picks out one class of the relation, what it finds is the only one.
  pub only-find? :
      (p : A → Bool) (same : A → A → Bool) (xs : List A) (a : A)
      → ((x y : A) → p x ≡ true → p y ≡ true → same x y ≡ true)
      → Distinct same xs
      → find? p xs ≡ some a
      → All (λ x. p x ≡ true → x ≡ a) xs
  only-find? p same [] a c d h = tt
  only-find? p same (x ∷ xs) a c d h = elim (Bool-cases (p x)) [
    | inl hit ↦ (
      λ _. ground arith,
      All-map (λ y. same x y ≡ false) (λ y. p y ≡ true → y ≡ a) xs
          (λ y differs hy. absurd (false≢true (sym differs ∙ c x y hit hy))) d.0,
    )
    | inr miss ↦ (λ hit. cc, only-find? p same xs a c d.1 (ground arith))
  ]

module _ {ℓ} {A : Type ℓ} (same : A → A → Bool) (same-refl : (x : A) → same x x ≡ true)
    (same-symm : (x y : A) → same x y ≡ false → same y x ≡ false) where
  any-filter-eq-false :
      (q bad : A → Bool) (x : A) (xs : List A)
      → All (λ y. same x y ≡ false) xs
      → any (filter q xs) (λ y. bad y && same y x) ≡ false
  any-filter-eq-false q bad x [] h = refl
  any-filter-eq-false q bad x (y ∷ xs) h =
      ground (arith, same-symm x y h.0, any-filter-eq-false q bad x xs h.1)

  any-filter_cons :
      (q bad : A → Bool) (x : A) (xs ys : List A)
      → All (λ y. same x y ≡ false) ys
      → All (λ g. any (filter q xs) (λ f. bad f && same f g) ≡ (q g && bad g)) ys
      → All (λ g. any (filter q (x ∷ xs)) (λ f. bad f && same f g) ≡ (q g && bad g)) ys
  any-filter_cons q bad x xs [] d h = tt
  any-filter_cons q bad x xs (g ∷ ys) d h =
      (ground (arith, d.0, h.0), any-filter_cons q bad x xs ys d.1 h.1)

  -- In a list of distinct elements, the element that is the same as a given one is that one.
  pub any-filter-same :
      (q bad : A → Bool) (xs : List A)
      → Distinct same xs
      → All (λ g. any (filter q xs) (λ f. bad f && same f g) ≡ (q g && bad g)) xs
  any-filter-same q bad [] d = tt
  any-filter-same q bad (x ∷ xs) d = (
    ground (arith, same-refl x, any-filter-eq-false q bad x xs d.0),
    any-filter_cons q bad x xs xs d.0 (any-filter-same q bad xs d.1),
  )

  -- In a list of distinct elements, what is the same as an element of the list is that element.
  pub only-In :
      (a : A) (xs : List A) → Distinct same xs → In a xs → All (λ x. same x a ≡ true → x ≡ a) xs
  only-In a [] d m = tt
  only-In a (x ∷ xs) d here = (
    λ _. refl,
    All-map _ _ xs (λ y apart e. absurd (false≢true (sym (same-symm x y apart) ∙ e))) d.0,
  )
  only-In a (x ∷ xs) d (there m) =
      (λ e. absurd (false≢true (sym (All-In _ xs a d.0 m) ∙ e)), only-In a xs d.1 m)

module _ {ℓ κ} {A : Type ℓ} (P : A → Type κ) where
  pub All-map_where-In :
      (p : A → Bool) (f : A → A) (xs : List A) (a : A)
      → All P (map_where p f xs)
      → In a xs
      → P (if p a then f a else a)
  All-map_where-In p f [] a h m = elim m [ ]
  All-map_where-In p f (x ∷ xs) a h here = h.0
  All-map_where-In p f (x ∷ xs) a h (there m) = All-map_where-In p f xs a h.1 m

  pub All-map_where :
      (p : A → Bool) (f : A → A) (xs : List A)
      → All (λ x. P (if p x then f x else x)) xs
      → All P (map_where p f xs)
  All-map_where p f [] h = tt
  All-map_where p f (x ∷ xs) h = (h.0, All-map_where p f xs h.1)
