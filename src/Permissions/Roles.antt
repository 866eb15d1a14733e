-- ===== src/Permissions/Roles.antt =====
-- Lists of roles that are asked for and held, libs/common/src/permissions.
use upload.Prelude.{
  String, String_eq, Bool, true, false, List, [], ◌∷◌, ◌≡◌, inl, inr, refl, arith, ◌==◌, any, all,
  includes, In, here, there, All, Bool-cases, ==-refl, subst,
}
use mathlib.Core.Bool.{false≢true}
use upload.Permissions.{satisfies}

any-iff_to :
    (p : String → Bool) (xs : List String) → any xs p ≡ true → (x : String) × In x xs × (p x ≡ true)
any-iff_to p [] h = cc
any-iff_to p (x ∷ xs) h = elim (Bool-cases (p x)) [
  | inl hit ↦ (x, here, hit)
  | inr miss ↦ let (y, member, holds) = any-iff_to p xs (rw miss at h) in (y, there member, holds)
]

any-iff_from :
    (p : String → Bool) (xs : List String) (x : String) → In x xs → p x ≡ true → any xs p ≡ true
any-iff_from p [] x m h = elim m [ ]
any-iff_from p (x ∷ xs) y here h = rw h refl
any-iff_from p (y ∷ xs) x (there m) h = let rest = any-iff_from p xs x m h in ground arith

includes-In : (xs : List String) (a : String) → includes xs a ≡ true → In a xs
includes-In xs a h =
    let (x, member, same) = any-iff_to (λ x. x == a) xs h in
    subst (λ y. In y xs) ((String_eq.same_iff x a).0 same) member

In-includes : (xs : List String) (a : String) → In a xs → includes xs a ≡ true
In-includes xs a m = any-iff_from (λ x. x == a) xs a m (==-refl a)

-- The roles that are asked for are among the roles that are held: each of them, or one of them.
pub data Meets (roles held : List String) : Bool → Type 0 where
  each : All (λ r. In r held) roles → Meets roles held true
  one : (r : String) → In r roles → In r held → Meets roles held false

all-to :
    (held roles : List String)
    → all roles (λ r. includes held r) ≡ true
    → All (λ r. In r held) roles
all-to held [] h = tt
all-to held (r ∷ roles) h = elim (Bool-cases (includes held r)) [
  | inl hit ↦ (includes-In held r hit, all-to held roles (rw hit at h))
  | inr miss ↦ absurd (false≢true (rw miss at h))
]

all-from :
    (held roles : List String)
    → All (λ r. In r held) roles
    → all roles (λ r. includes held r) ≡ true
all-from held [] h = refl
all-from held (r ∷ roles) h = rw (In-includes held r h.0) (all-from held roles h.1)

pub satisfies-Meets :
    (require_all : Bool) (roles held : List String)
    → satisfies require_all roles held ≡ true
    → Meets roles held require_all
satisfies-Meets true roles held h = each (all-to held roles h)
satisfies-Meets false roles held h =
    let (r, member, holds) = any-iff_to (λ r. includes held r) roles h in
    one r member (includes-In held r holds)

pub Meets-satisfies :
    (require_all : Bool) (roles held : List String)
    → Meets roles held require_all
    → satisfies require_all roles held ≡ true
Meets-satisfies true roles held (each h) = all-from held roles h
Meets-satisfies false roles held (one r member holds) =
    any-iff_from (λ r. includes held r) roles r member (In-includes held r holds)
