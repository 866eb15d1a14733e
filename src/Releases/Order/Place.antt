-- ===== src/Releases/Order/Place.antt =====
-- Where release.subscriber.ts of libs/common/src/database/subscribers puts a new release among the
-- others of its project.
use mathlib.Core.Bool.{false≢true}
use upload.Prelude.{
  ℕ, ℕ_eq, ◌≤◌, ◌<◌, String, String_eq, Bool, true, false, ◌||◌, Option, none, some, List, [], ◌∷◌,
  ◌==◌, ◌≡◌, ◌⊎◌, inl, inr, refl, sym, ◌∙◌, subst, arith, All, All-In, In, here, there, Bool-cases,
  any, ltb,
}
use upload.Storage.Rows.{Release}
use upload.Releases.Order.{Semver, insert_sorted, sort_versions, new_sort_order}

-- What `semver.compare` does by its documentation: it compares, and versions that it does not tell
-- apart stand alike to any other.
pub record IsComparison (semver : Semver) : Type 0 where
  pub asymmetric : (a b : String) → semver.is_greater a b ≡ true → semver.is_greater b a ≡ false
  pub between :
      (a b c : String)
      → semver.is_greater a c ≡ true
      → (semver.is_greater a b || semver.is_greater b c) ≡ true

module _ (semver : Semver) (order : IsComparison semver) where
  abbrev above : Release → Release → Bool
  above x y = semver.is_greater x.version y.version

  -- From low to high.
  unfoldable pub Ascending : List Release → Type 0
  Ascending [] = Unit
  Ascending (x ∷ xs) = All (λ y. above x y ≡ false) xs × Ascending xs

  irreflexive : (x : Release) → above x x ≡ true → ◌≡◌ {A = Bool} true false
  irreflexive x h = sym h ∙ order.asymmetric x.version x.version h

  above_trans : (x y z : Release) → above x y ≡ false → above y z ≡ false → above x z ≡ false
  above_trans x y z h k = ground (arith, order.between x.version y.version z.version)

  All-above :
      (r s : Release) (rest : List Release)
      → above r s ≡ false
      → All (λ y. above s y ≡ false) rest
      → All (λ y. above r y ≡ false) rest
  All-above r s [] h k = tt
  All-above r s (y ∷ rest) h k = (above_trans r s y h k.0, All-above r s rest h k.1)

  All-insert {κ} :
      (P : Release → Type κ) (r : Release) (rows : List Release)
      → P r
      → All P rows
      → All P (insert_sorted semver r rows)
  unfolding insert_sorted
  All-insert P r [] h k = (h, tt)
  All-insert P r (s ∷ rest) h k = elim (Bool-cases (above r s)) [
    | inl higher ↦ rw higher (k.0, All-insert P r rest h k.1)
    | inr lower ↦ rw lower (h, k)
  ]

  Ascending-insert :
      (r : Release) (rows : List Release) → Ascending rows → Ascending (insert_sorted semver r rows)
  unfolding insert_sorted Ascending
  Ascending-insert r [] h = (tt, tt)
  Ascending-insert r (s ∷ rest) h = elim (Bool-cases (above r s)) [
    | inl higher ↦ rw higher (
      All-insert (λ y. above s y ≡ false) r rest (order.asymmetric r.version s.version higher) h.0,
      Ascending-insert r rest h.1,
    )
    | inr lower ↦ rw lower ((lower, All-above r s rest lower h.0), h)
  ]

  pub Ascending-sort : (rows : List Release) → Ascending (sort_versions semver rows)
  unfolding sort_versions Ascending
  Ascending-sort [] = tt
  Ascending-sort (r ∷ rows) = Ascending-insert r (sort_versions semver rows) (Ascending-sort rows)

  pub All-sort {κ} :
      (P : Release → Type κ) (rows : List Release) → All P rows → All P (sort_versions semver rows)
  unfolding sort_versions
  All-sort P [] h = tt
  All-sort P (r ∷ rows) h = All-insert P r (sort_versions semver rows) h.0 (All-sort P rows h.1)

  In-insert :
      (r : Release) (rows : List Release) (x : Release)
      → (x ≡ r) ⊎ In x rows
      → In x (insert_sorted semver r rows)
  unfolding insert_sorted
  In-insert r [] x (inl e) = subst (λ y. In x (y ∷ [])) e here
  In-insert r [] x (inr m) = elim m [ ]
  In-insert r (s ∷ rest) x (inl e) = elim (Bool-cases (above r s)) [
    | inl higher ↦ rw higher (there (In-insert r rest x (inl e)))
    | inr lower ↦ rw lower (subst (λ y. In x (y ∷ s ∷ rest)) e here)
  ]
  In-insert r (s ∷ rest) x (inr here) = elim (Bool-cases (above r s)) [
    | inl higher ↦ rw higher here
    | inr lower ↦ rw lower (there here)
  ]
  In-insert r (s ∷ rest) x (inr (there m)) = elim (Bool-cases (above r s)) [
    | inl higher ↦ rw higher (there (In-insert r rest x (inr m)))
    | inr lower ↦ rw lower (there (there m))
  ]

  pub In-sort : (rows : List Release) (x : Release) → In x rows → In x (sort_versions semver rows)
  unfolding sort_versions
  In-sort [] x m = elim m [ ]
  In-sort (r ∷ rows) x here = In-insert r (sort_versions semver rows) x (inl refl)
  In-sort (r ∷ rows) x (there m) =
      In-insert r (sort_versions semver rows) x (inr (In-sort rows x m))

pub In-cons : (x y : Release) (rows : List Release) → In y (x ∷ rows) → (y ≡ x) ⊎ In y rows
In-cons x y rows here = inl refl
In-cons x y rows (there m) = inr m

abbrev pub order_of : Option Release → Option ℕ
order_of none = none
order_of (some r) = some r.sort_order

-- Among the releases of a project, those but the new one stand in the order of their versions.
module _ (semver : Semver) (order : IsComparison semver) (v : String) (all_rows : List Release)
    (pos : (y : Release) → In y all_rows → (y.version == v) ≡ false → 1 ≤ y.sort_order)
    (agree : (x y : Release)
      → In x all_rows
      → In y all_rows
      → (x.version == v) ≡ false
      → (y.version == v) ≡ false
      → semver.is_greater y.version x.version ≡ ltb x.sort_order y.sort_order) where
  -- The release before the place.
  unfoldable pub IsBefore : Option Release → List Release → Type 0
  IsBefore none rows = Unit
  IsBefore (some p) rows =
      In p all_rows
      × ((p.version == v) ≡ false)
      × All (λ y. semver.is_greater p.version y.version ≡ false) rows

  pub record IsPlace (q : Option Release) (rows : List Release) (n : ℕ) : Type 0 where
    pub after_before : (p : Release) → q ≡ some p → p.sort_order < n
    pub below_higher :
        (y : Release) → In y rows → semver.is_greater y.version v ≡ true → n ≤ y.sort_order
    pub above_lower :
        (y : Release) → In y rows → semver.is_greater v y.version ≡ true → y.sort_order < n

  is_other : (y : Release) → semver.is_greater y.version v ≡ true → (y.version == v) ≡ false
  is_other y h = elim (Bool-cases (y.version == v)) [
    | inr other ↦ other
    | inl same ↦
        let e : y.version ≡ v = (String_eq.same_iff y.version v).0 same in
        let g : semver.is_greater v v ≡ true = rw e at h in
        absurd (false≢true (sym (order.asymmetric v v g) ∙ g))
  ]

  -- Nothing from the new version on is below it.
  no_lower :
      (x y : Release) (rows : List Release)
      → x.version ≡ v
      → All (λ z. semver.is_greater x.version z.version ≡ false) rows
      → In y (x ∷ rows)
      → semver.is_greater v y.version ≡ true
      → ◌≡◌ {A = Bool} false true
  no_lower x y rows e low m h = elim (In-cons x y rows m) [
    | inl same ↦
        let g : semver.is_greater v v ≡ true = rw (same, e) at h in sym (order.asymmetric v v g) ∙ g
    | inr later ↦
        sym (rw e at (All-In (λ z. semver.is_greater x.version z.version ≡ false) rows y low later))
        ∙ h
  ]

  found_later :
      (x : Release) (rows : List Release)
      → any rows (λ z. z.version == v) ≡ true
      → All (λ z. semver.is_greater x.version z.version ≡ false) rows
      → semver.is_greater x.version v ≡ false
  found_later x [] h low = cc
  found_later x (z ∷ rows) h low = elim (Bool-cases (z.version == v)) [
    | inl same ↦ rw ((String_eq.same_iff z.version v).0 same) at low.0
    | inr other ↦ found_later x rows (rw other at h) low.1
  ]

  pub place :
      (q : Option Release) (rows : List Release)
      → ((y : Release) → In y rows → In y all_rows)
      → Ascending semver order rows
      → IsBefore q rows
      → any rows (λ z. z.version == v) ≡ true
      → IsPlace q rows (new_sort_order (order_of q) v rows)
  unfolding new_sort_order Ascending IsBefore
  place q [] emb asc before found = cc
  place none (x ∷ rows) emb asc before found = elim (Bool-cases (x.version == v)) [
    | inl same ↦ rw same (record {
      after_before = λ p e. cc;
      below_higher = λ y m h. pos y (emb y m) (is_other y h);
      above_lower = λ y m h.
          absurd
            (false≢true (no_lower x y rows ((String_eq.same_iff x.version v).0 same) asc.0 m h));
    })
    | inr other ↦ rw other (
        let rest =
          place (some x) rows (λ y m. emb y (there m)) asc.1 (emb x here, other, asc.0)
            (rw other at found) in
        record {
          after_before = λ p e. cc;
          below_higher = λ y m h. elim (In-cons x y rows m) [
            | inl same ↦
                absurd
                  (false≢true (sym (found_later x rows (rw other at found) asc.0) ∙ rw same at h))
            | inr later ↦ rest.below_higher y later h
          ];
          above_lower = λ y m h. elim (In-cons x y rows m) [
            | inl same ↦ let lt = rest.after_before x refl in rw same lt
            | inr later ↦ rest.above_lower y later h
          ];
        })
  ]
  place (some p) (x ∷ rows) emb asc before found = elim (Bool-cases (x.version == v)) [
    | inl same ↦ rw same (record {
      after_before = λ p' e. let e' : p ≡ p' = cc in rw (← e') (omega arith);
      below_higher = λ y m h.
          let e : x.version ≡ v = (String_eq.same_iff x.version v).0 same in
          let low : semver.is_greater p.version v ≡ false = rw e at before.2.0 in
          let between = order.between y.version p.version v h in
          let agrees = agree p y before.0 (emb y m) before.1 (is_other y h) in ground arith;
      above_lower = λ y m h.
          absurd
            (false≢true (no_lower x y rows ((String_eq.same_iff x.version v).0 same) asc.0 m h));
    })
    | inr other ↦ rw other (
        let rest =
          place (some x) rows (λ y m. emb y (there m)) asc.1 (emb x here, other, asc.0)
            (rw other at found) in
        record {
          after_before = λ p' e.
              let e' : p ≡ p' = cc in
              let lt = rest.after_before x refl in
              let low = before.2.0 in
              let agrees = agree x p (emb x here) before.0 other before.1 in
              rw (← e') (ground arith);
          below_higher = λ y m h. elim (In-cons x y rows m) [
            | inl same ↦
                absurd
                  (false≢true (sym (found_later x rows (rw other at found) asc.0) ∙ rw same at h))
            | inr later ↦ rest.below_higher y later h
          ];
          above_lower = λ y m h. elim (In-cons x y rows m) [
            | inl same ↦ let lt = rest.after_before x refl in rw same lt
            | inr later ↦ rest.above_lower y later h
          ];
        })
  ]
