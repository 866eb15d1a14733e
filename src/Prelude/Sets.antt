-- ===== src/Prelude/Sets.antt =====
-- JavaScript's `Set`, as the list of its members in the order in which they were added.
use mathlib.Core.Path.{◌≡◌, refl, sym, ◌∙◌, ap}
use mathlib.Core.Logic.{inl, inr}
use mathlib.Core.Bool.{Bool, true, not, ◌||◌, or_assoc}
use mathlib.Core.List.{List, [], ◌∷◌, ◌++◌}
use native.Mathlib.Omega.{arith}
use upload.Prelude.Tests.{if◌then◌else◌, Eq, ◌==◌, Bool-cases}
use upload.Prelude.Lists.{any, all, includes}

module _ {ℓ} {A : Type ℓ} ⦃e : Eq A⦄ where
  -- `Set.add`
  abbrev pub add : A → List A → List A
  add a set = if includes set a then set else set ++ a ∷ []

  abbrev pub add_all : List A → List A → List A
  add_all [] set = set
  add_all (x ∷ xs) set = add_all xs (add x set)

  -- `[...new Set(xs)]`
  abbrev pub unique : List A → List A
  unique xs = add_all xs []

module _ {ℓ} {A : Type ℓ} where
  pub any-append : (xs ys : List A) (p : A → Bool) → any (xs ++ ys) p ≡ (any xs p || any ys p)
  any-append [] ys p = refl
  any-append (x ∷ xs) ys p = ground (arith, any-append xs ys p)

  pub all-not-any : (xs : List A) (p : A → Bool) → all xs p ≡ not (any xs (λ x. not (p x)))
  all-not-any [] p = refl
  all-not-any (x ∷ xs) p = ground (arith, all-not-any xs p)

module _ {ℓ} {A : Type ℓ} ⦃e : Eq A⦄ where
  includes-any :
      (xs : List A) (a : A) (p : A → Bool) → includes xs a ≡ true → p a ≡ true → any xs p ≡ true
  includes-any [] a p h hp = cc
  includes-any (x ∷ xs) a p h hp = elim (Bool-cases (x == a)) [
    | inl same ↦ let eq : x ≡ a = (e.same_iff x a).0 same in rw eq (rw hp refl)
    | inr other ↦ let rest = includes-any xs a p (rw other at h) hp in ground arith
  ]

  any-add : (a : A) (set : List A) (p : A → Bool) → any (add a set) p ≡ (any set p || p a)
  any-add a set p = elim (Bool-cases (includes set a)) [
    | inl seen ↦ elim (Bool-cases (p a)) [
      | inl hit ↦ rw (seen, hit, includes-any set a p seen hit) refl
      | inr miss ↦ rw (seen, miss) (ground arith)
    ]
    | inr unseen ↦ rw (unseen, any-append set (a ∷ []) p) (ground arith)
  ]

  pub any-add_all :
      (xs set : List A) (p : A → Bool) → any (add_all xs set) p ≡ (any set p || any xs p)
  any-add_all [] set p = ground arith
  any-add_all (x ∷ xs) set p =
      rw (any-add_all xs (add x set) p, any-add x set p) (or_assoc (any set p) (p x) (any xs p))

  -- A test that some member of the set passes is one that some element of the list passes.
  pub any-unique : (xs : List A) (p : A → Bool) → any (unique xs) p ≡ any xs p
  any-unique xs p = any-add_all xs [] p

  pub all-unique : (xs : List A) (p : A → Bool) → all (unique xs) p ≡ all xs p
  all-unique xs p =
      all-not-any (unique xs) p ∙ ap not (any-unique xs (λ x. not (p x))) ∙ sym (all-not-any xs p)
