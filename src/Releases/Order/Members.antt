-- ===== src/Releases/Order/Members.antt =====
-- Lemmas on the members of a list of releases, which release.subscriber.ts of
-- libs/common/src/database/subscribers filters and sorts.
use mathlib.Core.List.Perm
use mathlib.Core.List.{Perm, foldr}
use mathlib.Core.Bool.{Bool-set}
use upload.Prelude.{
  ℕ_eq, String_eq, Bool, true, ◌&&◌, List, [], ◌∷◌, ◌≡◌, inl, inr, refl, sym, ◌∙◌, ap, arith,
  filter, All, All-map, In, here, there, Bool-cases, any, all,
}
use upload.Storage.Rows.{Release}

-- Membership and tests.
pub all-In :
    (p : Release → Bool) (rows : List Release) (x : Release)
    → all rows p ≡ true
    → In x rows
    → p x ≡ true
all-In p [] x h m = elim m [ ]
all-In p (y ∷ rows) x h here = ground arith
all-In p (y ∷ rows) x h (there m) = all-In p rows x (ground arith) m

pub In-any :
    (p : Release → Bool) (rows : List Release) (x : Release)
    → In x rows
    → p x ≡ true
    → any rows p ≡ true
In-any p [] x m h = elim m [ ]
In-any p (y ∷ rows) x here h = rw h refl
In-any p (y ∷ rows) x (there m) h = let rest = In-any p rows x m h in ground arith

pub In-filter :
    (p : Release → Bool) (rows : List Release) (x : Release)
    → In x rows
    → p x ≡ true
    → In x (filter p rows)
In-filter p [] x m h = elim m [ ]
In-filter p (y ∷ rows) x here h = rw h here
In-filter p (y ∷ rows) x (there m) h = elim (Bool-cases (p y)) [
  | inl hit ↦ rw hit (there (In-filter p rows x m h))
  | inr miss ↦ rw miss (In-filter p rows x m h)
]

pub All-filtered :
    (p : Release → Bool) (rows : List Release) → All (λ x. In x rows × (p x ≡ true)) (filter p rows)
All-filtered p [] = tt
All-filtered p (y ∷ rows) = elim (Bool-cases (p y)) [
  | inl hit ↦
      rw hit
        ((here, hit), All-map _ _ (filter p rows) (λ x m. (there m.0, m.1)) (All-filtered p rows))
  | inr miss ↦ rw miss (All-map _ _ (filter p rows) (λ x m. (there m.0, m.1)) (All-filtered p rows))
]

all-foldr :
    (p : Release → Bool) (rows : List Release) → all rows p ≡ foldr (λ x b. p x && b) true rows
all-foldr p [] = refl
all-foldr p (x ∷ rows) = ap (λ b. p x && b) (all-foldr p rows)

pub all-Perm :
    (p : Release → Bool) (rows other : List Release) → Perm rows other → all rows p ≡ all other p
all-Perm p rows other perm =
    all-foldr p rows
    ∙ Perm.foldr-eq Bool-set (λ x b. p x && b) (λ x y b. ground arith) perm true
    ∙ sym (all-foldr p other)
