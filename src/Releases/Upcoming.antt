-- ===== src/Releases/Upcoming.antt =====
-- `getLatestAndUpcomingReleases` of apps/upload/src/releases.service.ts.
use upload.Prelude.{
  Bool, true, false, Option, none, some, List, [], ◌∷◌, ◌≡◌, refl, arith, ◌==◌, if◌then◌else◌,
  find?, Bool-cases, inl, inr,
}
use upload.Storage.Enums.{released, ReleaseStatus_eq}
use upload.Storage.Rows.{Release}
use upload.Releases.{ReleasesChanged, is_upcoming, latest_and_upcoming}

abbrev pub is_released : Release → Bool
is_released r = r.status == released

-- The releases of a list up to the first released one.
unfoldable pub before_released : List Release → List Release
before_released [] = []
before_released (r ∷ rows) =
    let rest = before_released rows in if is_released r then [] else r ∷ rest

abbrev changed : Option Release → Option Release → ReleasesChanged
changed latest upcoming = record { latest_release = latest; upcoming_release = upcoming }

upcoming_found :
    (u : Release) (rows : List Release)
    → latest_and_upcoming (some u) rows ≡ changed (find? is_released rows) (some u)
unfolding latest_and_upcoming
upcoming_found u [] = refl
upcoming_found u (r ∷ rows) = elim (Bool-cases (is_released r)) [
  | inl done ↦ rw done refl
  | inr other ↦ rw other (upcoming_found u rows)
]

upcoming_unreleased : (r : Release) → is_upcoming r ≡ true → is_released r ≡ false
upcoming_unreleased r h = ground arith

-- In the order of the list, the latest release of the event is the first released one, and the
-- upcoming release is the first draft or release in review that stands before it.
latest_and_upcoming_lem :
    (rows : List Release)
    → latest_and_upcoming none rows ≡ record {
      latest_release = find? is_released rows;
      upcoming_release = find? is_upcoming (before_released rows);
    }
unfolding latest_and_upcoming before_released
latest_and_upcoming_lem [] = refl
latest_and_upcoming_lem (r ∷ rows) = elim (Bool-cases (is_upcoming r)) [
  | inl next ↦
      let unreleased = upcoming_unreleased r next in
      rw (next, unreleased) (rw next (upcoming_found r rows))
  | inr other ↦ elim (Bool-cases (is_released r)) [
    | inl done ↦ rw (other, done) refl
    | inr idle ↦ rw (other, idle) (rw other (latest_and_upcoming_lem rows))
  ]
]
