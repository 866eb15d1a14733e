-- ===== src/Releases/Set/Laws.antt =====
-- Which changes of status `setRelease` of apps/upload/src/releases.service.ts allows.
use upload.Prelude.{
  Bool, true, false, not, ◌&&◌, Option, none, some, ◌≡◌, ◌≢◌, ◌⊎◌, inl, inr, refl, sym, ◌∙◌, arith,
  if◌then◌else◌, Bool-cases,
}
use mathlib.Core.Bool.{false≢true}
use upload.Storage.Enums.{ReleaseStatus, draft, in_review, approved, released, archived}
use upload.Releases.{forbidden}
use upload.Releases.Set.{ok, err, decide_status, is_readonly_status}

-- The statuses that a request asks for: by its status, or by its draft flag.
pub data IsAsked (asked : Option ReleaseStatus) (is_draft : Option Bool)
    : ReleaseStatus → Type 0 where
  by_status : {s : ReleaseStatus} → asked ≡ some s → IsAsked asked is_draft s
  as_draft : is_draft ≡ some true → IsAsked asked is_draft draft
  for_review : is_draft ≡ some false → IsAsked asked is_draft in_review

-- A change of the status, with what it needs.
pub record IsAllowed (has_role : Bool) (asked : Option ReleaseStatus) (is_draft : Option Bool)
    (current : Option ReleaseStatus) (s : ReleaseStatus) : Type 0 where
  pub is_asked : IsAsked asked is_draft s
  pub no_review : is_readonly_status current ≡ true → s ≢ in_review
  pub needs_role : is_readonly_status current ≡ true → s ≡ released → has_role ≡ true

ok_eq : {a b : Option ReleaseStatus} → ok a ≡ ok b → b ≡ a
ok_eq h = cc

module _ (has_role : Bool) (asked : Option ReleaseStatus) (is_draft : Option Bool)
    (current decided : Option ReleaseStatus) where
  abbrev Decided : Type 0
  Decided =
      (decided ≡ current)
      ⊎ ((s : ReleaseStatus) × (decided ≡ some s) × IsAllowed has_role asked is_draft current s)

  to_draft : IsAsked asked is_draft draft → ok (some draft) ≡ ok decided → Decided
  to_draft a h =
      inr (draft, ok_eq h, record { is_asked = a; no_review = λ _ e. cc; needs_role = λ _ e. cc })

  to_archived : IsAsked asked is_draft archived → ok (some archived) ≡ ok decided → Decided
  to_archived a h =
      inr
        (archived, ok_eq h, record { is_asked = a; no_review = λ _ e. cc; needs_role = λ _ e. cc })

  to_review :
      IsAsked asked is_draft in_review
      → ok (if is_readonly_status current then current else some in_review) ≡ ok decided
      → Decided
  to_review a h = elim (Bool-cases (is_readonly_status current)) [
    | inl readonly ↦ inl (ok_eq (rw readonly at h))
    | inr open_status ↦ inr (
      in_review,
      ok_eq (rw open_status at h),
      record {
        is_asked = a;
        no_review = λ r e. false≢true (sym open_status ∙ r);
        needs_role = λ _ e. cc;
      },
    )
  ]

  to_released :
      IsAsked asked is_draft released
      → (if is_readonly_status current && not has_role then err forbidden else ok (some released))
        ≡ ok decided
      → Decided
  to_released a h = elim (Bool-cases (is_readonly_status current && not has_role)) [
    | inl refused ↦ absurd (ground arith)
    | inr granted ↦ inr (
      released,
      ok_eq (rw granted at h),
      record { is_asked = a; no_review = λ _ e. cc; needs_role = λ r _. ground arith },
    )
  ]

-- The status that a request gives a release is the one it had, or one that the request asks for;
-- a release that is released or in error does not go to review, and is released again only by a
-- user with the role.
pub decide_status_lem :
    (has_role : Bool) (asked : Option ReleaseStatus) (is_draft : Option Bool)
    (current decided : Option ReleaseStatus)
    → decide_status has_role asked is_draft current ≡ ok decided
    → (decided ≡ current)
      ⊎ ((s : ReleaseStatus) × (decided ≡ some s) × IsAllowed has_role asked is_draft current s)
unfolding decide_status
decide_status_lem r (some archived) d c t h = to_archived r (some archived) d c t (by_status refl) h
decide_status_lem r (some draft) d c t h = to_draft r (some draft) d c t (by_status refl) h
decide_status_lem r (some in_review) d c t h = to_review r (some in_review) d c t (by_status refl) h
decide_status_lem r (some released) d c t h = to_released r (some released) d c t (by_status refl) h
decide_status_lem r none (some true) c t h = to_draft r none (some true) c t (as_draft refl) h
decide_status_lem r none (some false) c t h = to_review r none (some false) c t (for_review refl) h
decide_status_lem r none none c t h = inl (ok_eq h)
decide_status_lem r (some approved) (some true) c t h =
    to_draft r (some approved) (some true) c t (as_draft refl) h
decide_status_lem r (some approved) (some false) c t h =
    to_review r (some approved) (some false) c t (for_review refl) h
decide_status_lem r (some approved) none c t h = inl (ok_eq h)
decide_status_lem r (some ReleaseStatus.error) (some true) c t h =
    to_draft r (some ReleaseStatus.error) (some true) c t (as_draft refl) h
decide_status_lem r (some ReleaseStatus.error) (some false) c t h =
    to_review r (some ReleaseStatus.error) (some false) c t (for_review refl) h
decide_status_lem r (some ReleaseStatus.error) none c t h = inl (ok_eq h)
