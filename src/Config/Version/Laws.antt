-- ===== src/Config/Version/Laws.antt =====
-- What the number of a new revision says of its content.
use mathlib.Core.Option
use upload.Prelude.{
  ◌<◌, String, String_eq, Bool, true, false, Option, some, List, [], ◌∷◌, ◌≡◌, refl, ◌⊎◌, arith,
}
use upload.Config.Json.{Value}
use upload.Config.Rows.{Version, Group}
use upload.Config.Yaml.{Yaml}
use upload.Config.Version.Kept.{read, same_read, kept_read}
use upload.Config.Version.{group_map, base, raise, compute_next_sem_ver}

-- The order of versions, by the first part in which they differ.
abbrev pub Precedes : Version → Version → Type 0
Precedes v w =
    (v.major < w.major)
    ⊎ ((v.major ≡ w.major) × ((v.minor < w.minor) ⊎ ((v.minor ≡ w.minor) × (v.patch < w.patch))))

raise-major :
    (major minor : Bool) (v : Version) → (raise major minor v).major ≡ v.major → major ≡ false
unfolding raise
raise-major true minor v h = absurd (omega arith)
raise-major false minor v h = refl

raise-minor : (minor : Bool) (v : Version) → (raise false minor v).minor ≡ v.minor → minor ≡ false
unfolding raise
raise-minor true v h = absurd (omega arith)
raise-minor false v h = refl

raise-Precedes : (major minor : Bool) (v : Version) → Precedes v (raise major minor v)
unfolding raise
raise-Precedes true minor v = ground arith
raise-Precedes false true v = ground arith
raise-Precedes false false v = ground arith

-- A revision that follows one with groups has a later version than that one.
next-Precedes :
    (yaml : Yaml) (g : Group) (prev_groups draft_groups : List Group) (prev : Option Version)
    → Precedes (base prev) (compute_next_sem_ver yaml (g ∷ prev_groups) draft_groups prev)
unfolding compute_next_sem_ver
next-Precedes yaml g prev_groups draft_groups prev = raise-Precedes _ _ (base prev)

-- Where the new version raises only the patch, each key of each group prints the same in both
-- revisions, or is missing in both.
pub next-patch-read :
    (yaml : Yaml) (g : Group) (prev_groups draft_groups : List Group) (prev : Option Version)
    (name key : String)
    → (compute_next_sem_ver yaml (g ∷ prev_groups) draft_groups prev).major ≡ (base prev).major
    → (compute_next_sem_ver yaml (g ∷ prev_groups) draft_groups prev).minor ≡ (base prev).minor
    → Option.map yaml.stringify (read (group_map yaml (g ∷ prev_groups) []) name key)
      ≡ Option.map yaml.stringify (read (group_map yaml draft_groups []) name key)
unfolding compute_next_sem_ver
next-patch-read yaml g prev_groups draft_groups prev name key h k =
    let no_major = raise-major _ _ (base prev) h in
    same_read yaml _ _ name key no_major (raise-minor _ (base prev) (rw no_major at k))

-- Where the new version keeps the major number, every key of every group of the previous revision
-- is in the same group of the new one.
pub next-major-read :
    (yaml : Yaml) (g : Group) (prev_groups draft_groups : List Group) (prev : Option Version)
    (name key : String) (v : Value)
    → (compute_next_sem_ver yaml (g ∷ prev_groups) draft_groups prev).major ≡ (base prev).major
    → read (group_map yaml (g ∷ prev_groups) []) name key ≡ some v
    → (w : Value) × (read (group_map yaml draft_groups []) name key ≡ some w)
unfolding compute_next_sem_ver
next-major-read yaml g prev_groups draft_groups prev name key v h found =
    kept_read _ _ name key v (raise-major _ _ (base prev) h) found
