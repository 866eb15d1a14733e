-- ===== src/Config/Store/Laws.antt =====
-- Operations that leave the table of revisions alone.
use upload.Prelude.{◌≡◌, refl, ◌∙◌, arith}
use upload.Config.Rows.{Group}
use upload.Config.Store.{
  Store, Env, Answer, ok, not_found, bad_request, failed, M, continue, ◌>>=◌, save_group,
}

-- The revisions, and their next key, are what they were.
pub record Untouched {S : Type 0} (s t : Store S) : Type 0 where
  pub same_revisions : t.revisions ≡ s.revisions
  pub same_next : t.next_revision ≡ s.next_revision

-- Wherever an operation starts, it leaves them.
abbrev pub Spares : {S A : Type 0} → M S A → Type 0
Spares {S} m = (s : Store S) → Untouched s (m s).0

pub Untouched-trans : {S : Type 0} {s t u : Store S} → Untouched s t → Untouched t u → Untouched s u
Untouched-trans h k = record {
  same_revisions = k.same_revisions ∙ h.same_revisions;
  same_next = k.same_next ∙ h.same_next;
}

pub Untouched-refl : {S : Type 0} (s : Store S) → Untouched s s
Untouched-refl s = record { same_revisions = refl; same_next = refl }

pub continue-Untouched :
    {S A B : Type 0} (s : Store S) (r : Store S × Answer A) (f : A → M S B)
    → Untouched s r.0
    → ((a : A) → Spares (f a))
    → Untouched s (continue r f).0
continue-Untouched s (t, ok a) f h k = Untouched-trans h (k a t)
continue-Untouched s (t, not_found) f h k = h
continue-Untouched s (t, bad_request) f h k = h
continue-Untouched s (t, failed) f h k = h

pub save_group-Spares : {S : Type 0} (env : Env S) (g : Group) → Spares (save_group env g)
unfolding save_group
save_group-Spares env g s = record { same_revisions = ground arith; same_next = ground arith }

-- So does a save after the secrets have changed.
pub save_after-Untouched :
    {S : Type 0} (env : Env S) (g : Group) (s : Store S) (secrets : S)
    → Untouched s (save_group env g (record s { secrets = secrets })).0
unfolding save_group
save_after-Untouched env g s secrets = record {
  same_revisions = ground arith;
  same_next = ground arith;
}

pub bind-Spares :
    {S A B : Type 0} (m : M S A) (f : A → M S B)
    → Spares m
    → ((a : A) → Spares (f a))
    → Spares (m >>= f)
bind-Spares m f h k s = continue-Untouched s (m s) f (h s) k
