-- ===== src/Releases/Refresh/Compliance.antt =====
-- The loop of `refreshReleaseState` over the regulations, apps/upload/src/releases.service.ts.
use upload.Prelude.{
  ℕ, ◌+◌, ◌≤◌, ◌≡◌, refl, ◌↔◌, Bool, true, false, ◌&&◌, List, [], ◌∷◌, arith, length, filter, all,
  length-filter-le,
}
use upload.Storage.Rows.{Regulation}
use upload.Regulations.{RegulationStatusDto}
use upload.Releases.Refresh.{is_compliant, check_regulations}

module _ (statuses : List RegulationStatusDto) where
  pub check_regulations_lem :
      (rs : List Regulation) (b : Bool) (n : ℕ)
      → check_regulations statuses rs (b, n)
        ≡ (b && all rs (is_compliant statuses), n + length (filter (is_compliant statuses) rs))
  unfolding check_regulations
  check_regulations_lem [] true n = ground arith
  check_regulations_lem [] false n = ground arith
  check_regulations_lem (r ∷ rs) b n =
      ground (arith, check_regulations_lem rs b (n + 1), check_regulations_lem rs false n)

  length-filter-eq_iff :
      (p : Regulation → Bool) (rs : List Regulation)
      → (all rs p ≡ true) ↔ (length (filter p rs) ≡ length rs)
  length-filter-eq_iff p [] = (λ _. refl, λ _. refl)
  length-filter-eq_iff p (r ∷ rs) = ground (arith, length-filter-eq_iff p rs, length-filter-le p rs)

-- The flag is set exactly when each regulation of the project is compliant, the count never passes
-- the number of regulations, and it reaches it exactly when the flag is set.
pub check_regulations_counts :
    (statuses : List RegulationStatusDto) (rs : List Regulation)
    → ((check_regulations statuses rs (true, 0)).0 ≡ all rs (is_compliant statuses))
      × ((check_regulations statuses rs (true, 0)).1 ≤ length rs)
      × (((check_regulations statuses rs (true, 0)).0 ≡ true)
          ↔ ((check_regulations statuses rs (true, 0)).1 ≡ length rs))
check_regulations_counts statuses rs = rw (check_regulations_lem statuses rs true 0) (
  refl,
  omega (arith, length-filter-le (is_compliant statuses) rs),
  ground (arith, length-filter-eq_iff statuses (is_compliant statuses) rs),
)
