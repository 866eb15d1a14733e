-- ===== src/Rules/Policies/Push.antt =====
-- What `getPoliciesForReleases` of apps/upload/src/policy.service.ts has under a key after it pushed
-- the definition of a rule to its releases.
use upload.Storage.Rows.{Release}
use upload.Prelude.{
  ℕ_eq, String, String_eq, Bool, true, false, ◌&&◌, ◌||◌, Option, none, some, List, [], ◌∷◌, ◌++◌,
  ◌==◌, ◌≡◌, refl, ◌∙◌, arith, if◌then◌else◌, any, includes, Bool-cases, Option-cases, inl, inr,
  eq_iff,
}
use upload.Prelude.Sets.{any-append}
use upload.Rules.Query.{ReleaseLink, of_release}
use upload.Rules.Policies.{push_at, start_at, push_links, push_release}
use upload.Rules.Store.{RuleType_eq}

-- The list under a key, which is empty where there is none.
abbrev pub at {ℓ} : {A : Type ℓ} → String → List (String × List A) → List A
at id [] = []
at id ((k, ds) ∷ result) = if k == id then ds else at id result

abbrev pub has_key {ℓ} : {A : Type ℓ} → String → List (String × List A) → Bool
has_key id result = any result (λ entry. entry.0 == id)

module _ {A : Type 0} (id : String) (p : A → Bool) where
  push_at-key :
      (key : String) (d : A) (result : List (String × List A))
      → has_key id (push_at key d result) ≡ has_key id result
  unfolding push_at
  push_at-key key d [] = refl
  push_at-key key d ((k, ds) ∷ result) = ground (arith, push_at-key key d result)

  any-push_at :
      (key : String) (d : A) (result : List (String × List A))
      → has_key id result ≡ true
      → any (at id (push_at key d result)) p ≡ (any (at id result) p || (key == id && p d))
  unfolding push_at
  any-push_at key d [] h = cc
  any-push_at key d ((k, ds) ∷ result) h = ground (
    arith,
    eq_iff k key,
    eq_iff k id,
    eq_iff key id,
    any-append ds (d ∷ []) p,
    any-push_at key d result,
  )

  push_release-key :
      (d : A) (r : Option Release) (result : List (String × List A))
      → has_key id (push_release d r result) ≡ has_key id result
  unfolding push_release
  push_release-key d none result = refl
  push_release-key d (some r) result = push_at-key r.catalog_id d result

  any-push_release :
      (d : A) (l : ReleaseLink) (result : List (String × List A))
      → has_key id result ≡ true
      → any (at id (push_release d l.release result)) p
        ≡ (any (at id result) p || (of_release id l && p d))
  unfolding push_release
  any-push_release d l result h = elim (Option-cases l.release) [
    | inl missing ↦ rw missing (ground arith)
    | inr (r, there) ↦ rw there (any-push_at r.catalog_id d result h)
  ]

  pub push_links-key :
      (d : A) (links : List ReleaseLink) (result : List (String × List A))
      → has_key id (push_links d links result) ≡ has_key id result
  unfolding push_links
  push_links-key d [] result = refl
  push_links-key d (l ∷ links) result =
      push_links-key d links (push_release d l.release result) ∙ push_release-key d l.release result

  pub any-push_links :
      (d : A) (links : List ReleaseLink) (result : List (String × List A))
      → has_key id result ≡ true
      → any (at id (push_links d links result)) p
        ≡ (any (at id result) p || (any links (of_release id) && p d))
  unfolding push_links
  any-push_links d [] result h = ground arith
  any-push_links d (l ∷ links) result h =
      any-push_links d links (push_release d l.release result)
        (push_release-key d l.release result ∙ h)
      ∙ rw (any-push_release d l result h) (ground arith)

  pub start_at-key :
      (ids : List String) (result : List (String × List A))
      → has_key id (start_at ids result) ≡ (has_key id result || includes ids id)
  unfolding start_at
  start_at-key [] result = ground arith
  start_at-key (i ∷ ids) result = elim (Bool-cases (has_key i result)) [
    | inl seen ↦ rw seen (
        start_at-key ids result ∙ elim (Bool-cases (i == id)) [
          | inr apart ↦ rw apart refl
          | inl same ↦ let there = rw ((eq_iff i id).0 same) at seen in rw (there) refl
        ])
    | inr unseen ↦ rw unseen (
        start_at-key ids (result ++ (i, []) ∷ [])
        ∙ rw (any-append result ((i, []) ∷ []) (λ entry. entry.0 == id)) (ground arith))
  ]

  any-at-snoc :
      (i : String) (result : List (String × List A))
      → any (at id (result ++ (i, []) ∷ [])) p ≡ any (at id result) p
  any-at-snoc i [] = ground arith
  any-at-snoc i ((k, ds) ∷ result) = ground (arith, any-at-snoc i result)

  pub any-start_at :
      (ids : List String) (result : List (String × List A))
      → any (at id result) p ≡ false
      → any (at id (start_at ids result)) p ≡ false
  unfolding start_at
  any-start_at [] result h = h
  any-start_at (i ∷ ids) result h = elim (Bool-cases (has_key i result)) [
    | inl seen ↦ rw seen (any-start_at ids result h)
    | inr unseen ↦ rw unseen (any-start_at ids (result ++ (i, []) ∷ []) (any-at-snoc i result ∙ h))
  ]
