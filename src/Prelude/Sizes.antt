-- ===== src/Prelude/Sizes.antt =====
-- How many members a set has.
use mathlib.Core.Path.{◌≡◌, refl, sym, ap, ◌∙◌}
use mathlib.Core.Logic.{inl, inr}
use mathlib.Core.Bool.{Bool, true, false, not}
use mathlib.Core.List.{List, [], ◌∷◌, ◌++◌, map}
use native.Mathlib.Omega.{arith}
use Prim.Native.Nat.{suc, ◌+◌, ◌≤◌}
use upload.Prelude.Tests.{if◌then◌else◌, Eq, ◌==◌, Bool-cases}
use upload.Prelude.Lists.{length, filter, all, includes, All, All-of, Distinct, length-filter-le}
use upload.Prelude.Tables.{Distinct-snoc, All-missing}
use upload.Prelude.Sets.{add, add_all, unique, any-append}

module _ {ℓ} {A : Type ℓ} where
  pub length-filter-not :
      (p : A → Bool) (xs : List A)
      → length (filter (λ x. not (p x)) xs) + length (filter p xs) ≡ length xs
  length-filter-not p [] = refl
  length-filter-not p (x ∷ xs) = ground (arith, length-filter-not p xs)

  pub length-snoc : (xs : List A) (x : A) → length (xs ++ x ∷ []) ≡ suc (length xs)
  length-snoc [] x = refl
  length-snoc (y ∷ xs) x = ap suc (length-snoc xs x)

  pub filter-snoc :
      (p : A → Bool) (xs : List A) (x : A)
      → filter p (xs ++ x ∷ []) ≡ (if p x then filter p xs ++ x ∷ [] else filter p xs)
  filter-snoc p [] x = refl
  filter-snoc p (y ∷ xs) x = ground (arith, filter-snoc p xs x)

module _ {ℓ κ} {A : Type ℓ} {B : Type κ} where
  pub Distinct-map :
      (f : A → B) (same : B → B → Bool) (xs : List A)
      → Distinct (λ x y. same (f x) (f y)) xs
      → Distinct same (map f xs)
  Distinct-map f same [] d = tt
  Distinct-map f same (x ∷ xs) d = (All-mapped xs d.0, Distinct-map f same xs d.1)
    where
      All-mapped :
          (ys : List A)
          → All (λ y. same (f x) (f y) ≡ false) ys
          → All (λ b. same (f x) b ≡ false) (map f ys)
      All-mapped [] h = tt
      All-mapped (y ∷ ys) h = (h.0, All-mapped ys h.1)

module _ {ℓ} {A : Type ℓ} ⦃e : Eq A⦄ where
  Distinct-add_all :
      (xs set : List A) → Distinct (λ x y. x == y) set → Distinct (λ x y. x == y) (add_all xs set)
  Distinct-add_all [] set d = d
  Distinct-add_all (x ∷ xs) set d =
      Distinct-add_all xs (add x set) (elim (Bool-cases (includes set x)) [
        | inl seen ↦ rw seen d
        | inr unseen ↦
            rw unseen (Distinct-snoc (λ y z. y == z) set x d (All-missing (λ y. y == x) set unseen))
      ])

  pub Distinct-unique : (xs : List A) → Distinct (λ x y. x == y) (unique xs)
  Distinct-unique xs = Distinct-add_all xs [] tt

  ==-symm : (x y : A) → (x == y) ≡ false → (y == x) ≡ false
  ==-symm x y apart = elim (Bool-cases (y == x)) [
    | inl hit ↦
        let same : x ≡ y = sym ((e.same_iff y x).0 hit) in let hit' = (e.same_iff x y).1 same in cc
    | inr miss ↦ miss
  ]

  -- To leave out a member makes a list shorter.
  length-without :
      (a : A) (ys : List A)
      → includes ys a ≡ true
      → suc (length (filter (λ y. not (y == a)) ys)) ≤ length ys
  length-without a [] h = cc
  length-without a (y ∷ ys) h = elim (Bool-cases (y == a)) [
    | inl hit ↦ let le = length-filter-le (λ y. not (y == a)) ys in rw hit (omega arith)
    | inr miss ↦ let le = length-without a ys (rw miss at h) in rw miss (omega arith)
  ]

  any-without :
      (a x : A) (ys : List A)
      → (a == x) ≡ false
      → includes ys x ≡ true
      → includes (filter (λ y. not (y == a)) ys) x ≡ true
  any-without a x [] apart h = cc
  any-without a x (y ∷ ys) apart h = elim (Bool-cases (y == x)) [
    | inl hit ↦
        let other : (y == a) ≡ false =
          ap (λ z. z == a) ((e.same_iff y x).0 hit) ∙ ==-symm a x apart in
        rw other (rw hit refl)
    | inr miss ↦
        let rest = any-without a x ys apart (rw miss at h) in
        elim (Bool-cases (y == a)) [ inl out ↦ rw out rest | inr kept ↦ rw kept (rw miss rest) ]
  ]

  all-without :
      (a : A) (xs ys : List A)
      → All (λ x. (a == x) ≡ false) xs
      → all xs (includes ys) ≡ true
      → all xs (includes (filter (λ y. not (y == a)) ys)) ≡ true
  all-without a [] ys apart h = refl
  all-without a (x ∷ xs) ys apart h =
      ground (arith, any-without a x ys apart.0, all-without a xs ys apart.1)

  -- A list of distinct elements is no longer than a list that has them all.
  pub length-included :
      (xs ys : List A)
      → Distinct (λ x y. x == y) xs
      → all xs (includes ys) ≡ true
      → length xs ≤ length ys
  length-included [] ys d h = omega arith
  length-included (x ∷ xs) ys d h =
      let shorter = length-without x ys (ground arith) in
      let rest =
        length-included xs (filter (λ y. not (y == x)) ys) d.1
          (all-without x xs ys d.0 (ground arith)) in
      omega arith

  -- The elements of a list of distinct ones stay in a set as they are.
  length-add_all :
      (xs set : List A)
      → Distinct (λ x y. x == y) xs
      → All (λ x. includes set x ≡ false) xs
      → length (add_all xs set) ≡ length set + length xs
  length-add_all [] set d h = omega arith
  length-add_all (x ∷ xs) set d h =
      let still : All (λ y. includes (set ++ x ∷ []) y ≡ false) xs = All-both xs d.0 h.1 in
      let rest = length-add_all xs (set ++ x ∷ []) d.1 still in
      rw h.0 (rest ∙ rw (length-snoc set x) (omega arith))
    where
      All-both :
          (ys : List A)
          → All (λ y. (x == y) ≡ false) ys
          → All (λ y. includes set y ≡ false) ys
          → All (λ y. includes (set ++ x ∷ []) y ≡ false) ys
      All-both [] apart missing = tt
      All-both (y ∷ ys) apart missing = (
        any-append set (x ∷ []) (λ z. z == y) ∙ rw (apart.0, missing.0) refl,
        All-both ys apart.1 missing.1,
      )

  pub length-unique : (xs : List A) → Distinct (λ x y. x == y) xs → length (unique xs) ≡ length xs
  length-unique xs d =
      length-add_all xs [] d (All-of (λ x. false ≡ false) xs (λ x. refl)) ∙ omega arith
