-- ===== src/Config/Revisions/Counts.antt =====
-- How many rows pass a test, and what the operations of a table do to that number.
use upload.Prelude.{
  ℕ, ◌+◌, ◌≤◌, Bool, true, false, not, ◌&&◌, List, [], ◌∷◌, ◌++◌, ◌≡◌, refl, arith, filter, length,
  map_where, if◌then◌else◌, In, here, there,
}

module _ {ℓ} {A : Type ℓ} where
  abbrev pub count : (A → Bool) → List A → ℕ
  count p rows = length (filter p rows)

  pub count-append :
      (p : A → Bool) (rows : List A) (r : A)
      → count p (rows ++ r ∷ []) ≡ count p rows + (if p r then 1 else 0)
  count-append p [] r = ground arith
  count-append p (x ∷ rows) r = ground (arith, count-append p rows r)

  -- A deletion adds nothing.
  pub count-filter-le : (p q : A → Bool) (rows : List A) → count p (filter q rows) ≤ count p rows
  count-filter-le p q [] = omega arith
  count-filter-le p q (x ∷ rows) = ground (arith, count-filter-le p q rows)

  -- After an update a row passes unchanged, or changed.
  pub count-map_where :
      (p q : A → Bool) (f : A → A) (rows : List A)
      → count p (map_where q f rows)
        ≡ count (λ x. p x && not (q x)) rows + count (λ x. q x && p (f x)) rows
  count-map_where p q f [] = refl
  count-map_where p q f (x ∷ rows) = ground (arith, count-map_where p q f rows)

  -- A row that passes is counted.
  pub count-split :
      (p q : A → Bool) (rows : List A)
      → count (λ x. p x && not (q x)) rows + count (λ x. p x && q x) rows ≡ count p rows
  count-split p q [] = refl
  count-split p q (x ∷ rows) = ground (arith, count-split p q rows)

  pub count-le :
      (p q : A → Bool) (rows : List A)
      → ((x : A) → p x ≡ true → q x ≡ true)
      → count p rows ≤ count q rows
  count-le p q [] h = omega arith
  count-le p q (x ∷ rows) h = ground (arith, h x, count-le p q rows h)

  pub count-In : (p : A → Bool) (rows : List A) (a : A) → In a rows → p a ≡ true → 1 ≤ count p rows
  count-In p [] a m h = elim m [ ]
  count-In p (x ∷ rows) a here h = ground arith
  count-In p (x ∷ rows) a (there m) h = ground (arith, count-In p rows a m h)

  pub count-false : (p : A → Bool) (rows : List A) → ((x : A) → p x ≡ false) → count p rows ≡ 0
  count-false p [] h = refl
  count-false p (x ∷ rows) h = ground (arith, h x, count-false p rows h)
