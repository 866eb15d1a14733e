-- ===== src/Rules/Text.antt =====
-- JavaScript's `trim`, `split(',')` and `toLowerCase`, as the rules of libs/common/src/rules/ use
-- them. A text in lower case is only compared with names in ASCII, so only ASCII is lowered.
use Prim.Native.Char.{code}
use upload.Prelude.{
  ℕ, ℕ_eq, ◌+◌, String, Bool, true, false, ◌&&◌, ◌||◌, List, [], ◌∷◌, ◌==◌, leb, if◌then◌else◌,
  includes,
}

-- White space and line ends of ECMAScript.
unfoldable pub is_space : ℕ → Bool
is_space c =
    (leb 9 c && leb c 13)
    || (leb 8192 c && leb c 8202)
    || includes (32 ∷ 160 ∷ 5760 ∷ 8232 ∷ 8233 ∷ 8239 ∷ 8287 ∷ 12288 ∷ 65279 ∷ []) c

unfoldable pub trim_start : String → String
unfolding is_space
trim_start String.[] = String.[]
trim_start (String.◌∷◌ c s) =
    let rest = trim_start s in if is_space (code c) then rest else String.◌∷◌ c s

unfoldable pub trim_end : String → String
unfolding is_space
trim_end String.[] = String.[]
trim_end (String.◌∷◌ c s) = elim (trim_end s) [
  | String.[] ↦ if is_space (code c) then String.[] else String.◌∷◌ c String.[]
  | String.◌∷◌ d rest ↦ String.◌∷◌ c (String.◌∷◌ d rest)
]

unfoldable pub trim : String → String
unfolding trim_start trim_end
trim s = trim_end (trim_start s)

abbrev pub comma : ℕ
comma = b','

-- The pieces of a text, where one more character belongs to the first.
unfoldable pub split_at : ℕ → String → List String
split_at k String.[] = String.[] ∷ []
split_at k (String.◌∷◌ c s) = elim (split_at k s) [
  | [] ↦ String.◌∷◌ c String.[] ∷ []
  | piece ∷ pieces ↦ if code c == k then String.[] ∷ piece ∷ pieces else String.◌∷◌ c piece ∷ pieces
]

abbrev pub lower_code : ℕ → ℕ
lower_code c = if leb 65 c && leb c 90 then c + 32 else c

-- The characters of a text in lower case.
unfoldable pub lower : String → List ℕ
lower String.[] = []
lower (String.◌∷◌ c s) = lower_code (code c) ∷ lower s

unfoldable pub same_codes : List ℕ → List ℕ → Bool
same_codes [] [] = true
same_codes (c ∷ cs) (d ∷ ds) = c == d && same_codes cs ds
same_codes _ _ = false

-- `names.includes(text.toLowerCase().trim())`, for names in lower case.
unfoldable pub is_one_of : List String → String → Bool
unfolding trim lower same_codes
is_one_of [] s = false
is_one_of (name ∷ names) s = same_codes (lower (trim s)) (lower name) || is_one_of names s
