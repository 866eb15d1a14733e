-- ===== src/Rules/Context/Laws.antt =====
-- What the spread context has under its keys.
use upload.Prelude.{
  ℕ, String, String_eq, Bool, true, false, not, ◌&&◌, none, some, List, [], ◌∷◌, ◌++◌, ◌==◌, ◌≡◌,
  refl, ◌∙◌, arith, ==-refl, includes, All, eq_iff, Bool-cases, inl, inr,
}
use upload.Config.Json.{Value, Fields, empty, field, assign, lookup}
use upload.Config.Paths.Laws.{lookup-assign}
use upload.Rules.Context.{assign_entries, spread_entries, spread_entry, array_at, has_arrays}

abbrev pub no_repeats : List String → Bool
no_repeats [] = true
no_repeats (k ∷ ks) = not (includes ks k) && no_repeats ks

abbrev pub entry_keys : List (String × Value) → List String
entry_keys [] = []
entry_keys ((k, v) ∷ entries) = k ∷ entry_keys entries

abbrev pub Holds : Fields → String × Value → Type 0
Holds context (k, v) = lookup k context ≡ some v

pub lookup-assign_entries-none :
    (k : String) (entries : List (String × Value)) (acc : Fields)
    → includes (entry_keys entries) k ≡ false
    → lookup k (assign_entries entries acc) ≡ lookup k acc
unfolding assign_entries
lookup-assign_entries-none k [] acc h = refl
lookup-assign_entries-none k ((j, v) ∷ entries) acc h =
    let off : (j == k) ≡ false = ground arith in
    lookup-assign_entries-none k entries (assign j v acc) (ground arith)
    ∙ rw (lookup-assign k j v acc, off) refl

pub assign_entries-Holds :
    (entries : List (String × Value)) (acc : Fields)
    → no_repeats (entry_keys entries) ≡ true
    → All (Holds (assign_entries entries acc)) entries
unfolding assign_entries
assign_entries-Holds [] acc h = tt
assign_entries-Holds ((j, v) ∷ entries) acc h = (
  lookup-assign_entries-none j entries (assign j v acc) (ground arith)
      ∙ rw (lookup-assign j j v acc, ==-refl j) refl,
  assign_entries-Holds entries (assign j v acc) (ground arith),
)

some-inj : {A : Type 0} {a b : A} → some a ≡ some b → a ≡ b
some-inj e = cc

All-append {ℓ} :
    (P : String × Value → Type ℓ) (xs ys : List (String × Value))
    → All P (xs ++ ys)
    → All P xs × All P ys
All-append P [] ys h = (tt, h)
All-append P (x ∷ xs) ys h = let (first, second) = All-append P xs ys h.1 in ((h.0, first), second)

module _ (print : ℕ → String) where
  pub entry-Holds {ℓ} :
      (P : String × Value → Type ℓ) (context : Fields) (k : String) (v : Value)
      → All P (spread_entries print context)
      → lookup k context ≡ some v
      → All P (spread_entry print k v)
  unfolding spread_entries lookup
  entry-Holds P empty k v h e = cc
  entry-Holds P (field j w fields) k v h e =
      let (own, rest) = All-append P (spread_entry print j w) (spread_entries print fields) h in
      elim (Bool-cases (j == k)) [
        | inl same ↦
            let key : j ≡ k = (eq_iff j k).0 same in
            let value : w ≡ v = some-inj (rw same at e) in rw (← key, ← value) own
        | inr other ↦ entry-Holds P fields k v rest (rw other at e)
      ]

pub has_arrays-array_at :
    (context : Fields) (k : String) → has_arrays context ≡ false → array_at context k ≡ none
unfolding has_arrays array_at lookup
has_arrays-array_at empty k h = refl
has_arrays-array_at (field j w fields) k h = elim (Bool-cases (j == k)) [
  | inl same ↦ rw (array_at, same) (ground arith)
  | inr other ↦ rw (array_at, other) (has_arrays-array_at fields k (ground arith))
]
