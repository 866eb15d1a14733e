-- ===== src/Vault/Text.antt =====
-- The parts of a text before and after the last place of a character, by JavaScript's `lastIndexOf`
-- and `slice`.
use Prim.Native.Char.{Char, code}
use Prim.Native.String
use text.Mathlib.TextLemmas.{nil-append, cons-append}
use upload.Prelude.{
  ℕ, zero, suc, String, Bool, false, Option, none, some, nat_eq, if◌then◌else◌, ◌≡◌, refl, ap, ◌∙◌,
  arith, ◌||◌,
}

abbrev pub hash : ℕ
hash = b'#'

abbrev pub slash : ℕ
slash = b'/'

unfoldable pub has_char : ℕ → String → Bool
has_char k String.[] = false
has_char k (String.◌∷◌ c s) = nat_eq (code c) k || has_char k s

unfoldable pub drop_chars : ℕ → String → String
drop_chars zero s = s
drop_chars (suc n) String.[] = String.[]
drop_chars (suc n) (String.◌∷◌ c s) = drop_chars n s

-- A text cut at the last place of a character; none where it is not there.
unfoldable pub cut : ℕ → String → Option (String × String)
cut k String.[] = none
cut k (String.◌∷◌ c s) = elim (cut k s) [
  | some (before, after) ↦ some (String.◌∷◌ c before, after)
  | none ↦ if nat_eq (code c) k then some (String.[], s) else none
]

-- `s.slice(0, -1)`
unfoldable pub all_but_last : String → String
all_but_last String.[] = String.[]
all_but_last (String.◌∷◌ c String.[]) = String.[]
all_but_last (String.◌∷◌ c (String.◌∷◌ d s)) = String.◌∷◌ c (all_but_last (String.◌∷◌ d s))

-- `s.slice(0, s.lastIndexOf(k))`, where an index of -1 drops the last character.
unfoldable pub before_last : ℕ → String → String
unfolding cut all_but_last
before_last k s = elim (cut k s) [ none ↦ all_but_last s | some (before, after) ↦ before ]

-- `s.slice(s.lastIndexOf(k) + 1)`
unfoldable pub after_last : ℕ → String → String
unfolding cut
after_last k s = elim (cut k s) [ none ↦ s | some (before, after) ↦ after ]

cut-eq-none : (k : ℕ) (s : String) → has_char k s ≡ false → cut k s ≡ none
unfolding cut has_char
cut-eq-none k String.[] h = refl
cut-eq-none k (String.◌∷◌ c s) h = ground (arith, cut-eq-none k s)

-- A text is cut at a character that what follows does not have.
pub cut-append :
    (a : String) (c : Char) (b : String)
    → has_char (code c) b ≡ false
    → cut (code c) (String.◌++◌ a (String.◌∷◌ c b)) ≡ some (a, b)
unfolding cut
cut-append String.[] c b h =
    rw (nil-append (String.◌∷◌ c b)) (ground (arith, cut-eq-none (code c) b h))
cut-append (String.◌∷◌ d a) c b h =
    rw (cons-append d a (String.◌∷◌ c b)) (ground (arith, cut-append a c b h))

count_chars : String → ℕ
count_chars String.[] = 0
count_chars (String.◌∷◌ c s) = suc (count_chars s)

drop-append : (a s : String) → drop_chars (count_chars a) (String.◌++◌ a s) ≡ s
unfolding drop_chars count_chars
drop-append String.[] s = nil-append s
drop-append (String.◌∷◌ c a) s = rw (cons-append c a s) (drop-append a s)

pub drop-prefix : (s : String) → drop_chars 6 (String.◌++◌ "vault:" s) ≡ s
unfolding count_chars
drop-prefix s = drop-append "vault:" s

pub hash-append : (s : String) → String.◌++◌ "#" s ≡ String.◌∷◌ "#" s
hash-append s = cons-append "#" String.[] s ∙ ap (String.◌∷◌ "#") (nil-append s)

pub slash-append : (s : String) → String.◌++◌ "/" s ≡ String.◌∷◌ "/" s
slash-append s = cons-append "/" String.[] s ∙ ap (String.◌∷◌ "/") (nil-append s)
