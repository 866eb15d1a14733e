-- ===== src/Prelude/Tables.antt =====
-- Lemmas on lists that are tables: what is found, added and filtered.
use mathlib.Core.Path.{◌≡◌, refl, ap}
use mathlib.Core.Logic.{inl, inr}
use mathlib.Core.Bool.{Bool, true, false, ◌&&◌, ◌||◌}
use mathlib.Core.Option.{none, some}
use mathlib.Core.List.{List, [], ◌∷◌, ◌++◌, map}
use native.Mathlib.Omega.{arith}
use Prim.Native.Nat.{ℕ, zero, suc}
use upload.Prelude.Tests.{Bool-cases}
use upload.Prelude.Lists.{filter, any, all, head?, take, drop, All, Distinct, In, here, there}

module _ {ℓ} {A : Type ℓ} (p : A → Bool) where
  -- Whether a list has an element that passes, by the first one that a filter finds.
  pub found-any : (rows : List A) (a : A) → head? (filter p rows) ≡ some a → any rows p ≡ true
  found-any [] a h = cc
  found-any (x ∷ rows) a h = elim (Bool-cases (p x)) [
    | inl hit ↦ rw hit refl
    | inr miss ↦ rw miss (found-any rows a (rw miss at h))
  ]

  pub missing-any : (rows : List A) → head? (filter p rows) ≡ none → any rows p ≡ false
  missing-any [] h = refl
  missing-any (x ∷ rows) h = elim (Bool-cases (p x)) [
    | inl hit ↦ let impossible : some x ≡ none = rw hit at h in cc
    | inr miss ↦ rw miss (missing-any rows (rw miss at h))
  ]

module _ {ℓ κ} {A : Type ℓ} {B : Type κ} where
  pub any-map : (f : A → B) (p : B → Bool) (xs : List A) → any (map f xs) p ≡ any xs (λ x. p (f x))
  any-map f p [] = refl
  any-map f p (x ∷ xs) = ap (λ b. p (f x) || b) (any-map f p xs)

module _ {ℓ} {A : Type ℓ} where
  pub All-filter {κ} :
      (P : A → Type κ) (q : A → Bool) (xs : List A) → All P xs → All P (filter q xs)
  All-filter P q [] h = tt
  All-filter P q (x ∷ xs) h = elim (Bool-cases (q x)) [
    | inl in_it ↦ rw in_it (h.0, All-filter P q xs h.1)
    | inr out ↦ rw out (All-filter P q xs h.1)
  ]

  pub Distinct-filter :
      (same : A → A → Bool) (q : A → Bool) (xs : List A)
      → Distinct same xs
      → Distinct same (filter q xs)
  Distinct-filter same q [] h = tt
  Distinct-filter same q (x ∷ xs) h = elim (Bool-cases (q x)) [
    | inl in_it ↦
        rw in_it (All-filter (λ y. same x y ≡ false) q xs h.0, Distinct-filter same q xs h.1)
    | inr out ↦ rw out (Distinct-filter same q xs h.1)
  ]

  pub All-snoc {κ} : (P : A → Type κ) (xs : List A) (x : A) → All P xs → P x → All P (xs ++ x ∷ [])
  All-snoc P [] x h k = (k, tt)
  All-snoc P (y ∷ xs) x h k = (h.0, All-snoc P xs x h.1 k)

  pub Distinct-snoc :
      (same : A → A → Bool) (xs : List A) (x : A)
      → Distinct same xs
      → All (λ y. same y x ≡ false) xs
      → Distinct same (xs ++ x ∷ [])
  Distinct-snoc same [] x h k = (tt, tt)
  Distinct-snoc same (y ∷ xs) x h k =
      (All-snoc (λ z. same y z ≡ false) xs x h.0 k.0, Distinct-snoc same xs x h.1 k.1)

  -- No element passes a test that the list has none for.
  pub All-missing : (p : A → Bool) (xs : List A) → any xs p ≡ false → All (λ x. p x ≡ false) xs
  All-missing p [] h = tt
  All-missing p (x ∷ xs) h = (ground arith, All-missing p xs (ground arith))

  -- Tests that all elements of a list pass.
  pub all-imp :
      (p q : A → Bool)
      → ((a : A) → p a ≡ true → q a ≡ true)
      → (xs : List A) → all xs p ≡ true
      → all xs q ≡ true
  all-imp p q imp [] h = refl
  all-imp p q imp (x ∷ xs) h = ground (arith, imp x, all-imp p q imp xs)

  pub all-of-In : (p : A → Bool) (xs : List A) → ((a : A) → In a xs → p a ≡ true) → all xs p ≡ true
  all-of-In p [] h = refl
  all-of-In p (x ∷ xs) h = ground (arith, h x here, all-of-In p xs (λ a m. h a (there m)))

  pub all-filter :
      (q p : A → Bool) (xs : List A) → all xs p ≡ true → all (filter q xs) (λ x. q x && p x) ≡ true
  all-filter q p [] h = refl
  all-filter q p (x ∷ xs) h = elim (Bool-cases (q x)) [
    | inl in_it ↦ rw in_it (ground (arith, all-filter q p xs))
    | inr out ↦ rw out (all-filter q p xs (ground arith))
  ]

  pub all-take : (p : A → Bool) (n : ℕ) (xs : List A) → all xs p ≡ true → all (take n xs) p ≡ true
  all-take p zero xs h = refl
  all-take p (suc n) [] h = refl
  all-take p (suc n) (x ∷ xs) h = ground (arith, all-take p n xs)

  pub all-drop : (p : A → Bool) (n : ℕ) (xs : List A) → all xs p ≡ true → all (drop n xs) p ≡ true
  all-drop p zero xs h = h
  all-drop p (suc n) [] h = refl
  all-drop p (suc n) (x ∷ xs) h = all-drop p n xs (ground arith)
