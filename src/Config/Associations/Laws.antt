-- ===== src/Config/Associations/Laws.antt =====
-- Adding associations covers the devices and the type that are asked for, and does so once.
use upload.Prelude.{
  ℕ, ℕ_eq, String, String_eq, Bool, true, false, List, [], ◌∷◌, ◌++◌, ◌≡◌, refl, sym, subst, ap,
  ◌∙◌, arith, any, all, filter, head?, In, here, there, Option-cases, inl, inr, ==-refl, found-any,
  missing-any,
}
use upload.Prelude.Sets.{any-append}
use upload.Storage.Orm.{IsSql, by_rows}
use upload.Config.Rows.{Association}
use upload.Config.Store.{Store, Env, Answer, ok, M, continue, done}
use upload.Config.Revisions.Invariant.{on_rows_env}
use upload.Config.Associations.{for_device, add_device, add_devices, insert_association}

-- An operation ends well, keeps the associations, and covers a test; where the test was covered it
-- changes nothing.
pub record Adds {S A : Type 0} (test : Association → Bool) (s : Store S) (r : Store S × Answer A)
    : Type 0 where
  pub value : A
  pub ends : r ≡ (r.0, ok value)
  pub keeps : (q : Association → Bool) → any s.associations q ≡ true → any r.0.associations q ≡ true
  pub covers : any r.0.associations test ≡ true
  pub once : any s.associations test ≡ true → r.0 ≡ s

-- What holds of the head and in the tail.
In-cons :
    (P : String → Type 0) (x : String) (xs : List String) (y : String)
    → P x
    → ((z : String) → In z xs → P z)
    → In y (x ∷ xs)
    → P y
In-cons P x xs y head tail here = head
In-cons P x xs y head tail (there m) = tail y m

module _ {S : Type 0} (env : Env S) (project : ℕ) where
  add_device-Adds :
      (device : String) (s : Store S)
      → Adds (for_device project device) s (add_device (on_rows_env env) project device s)
  unfolding add_device insert_association
  add_device-Adds device s =
      elim (Option-cases (head? (filter (for_device project device) s.associations))) [
        | inl missing ↦ rw missing (record {
          value = _;
          ends = refl;
          keeps = λ q h. rw (any-append s.associations _ q, h) refl;
          covers =
              rw (any-append s.associations _ (for_device project device))
                (ground (arith, ==-refl project, ==-refl device));
          once = λ h.
              (let off = missing-any (for_device project device) s.associations missing in
                let impossible : true ≡ false = rw h at off in cc);
        })
        | inr (row, found) ↦ rw found (record {
          value = _;
          ends = refl;
          keeps = λ q h. h;
          covers = found-any (for_device project device) s.associations row found;
          once = λ h. refl;
        })
      ]

  -- The same for a list of devices.
  record AddsAll (devices : List String) (s : Store S)
      (r : Store S × Answer (List Association × List String)) : Type 0 where
    values : List Association × List String
    all_end : r ≡ (r.0, ok values)
    all_keep :
        (q : Association → Bool) → any s.associations q ≡ true → any r.0.associations q ≡ true
    all_covered :
        (device : String)
        → In device devices
        → any r.0.associations (for_device project device) ≡ true
    all_once :
        ((device : String)
          → In device devices
          → any s.associations (for_device project device) ≡ true)
        → r.0 ≡ s

  join_ends :
      (first : Store S × Answer (Association × List String))
      (next : M S (List Association × List String)) (f : Association × List String)
      (r : List Association × List String)
      → first ≡ (first.0, ok f)
      → next first.0 ≡ ((next first.0).0, ok r)
      → continue {B = List Association × List String} first
          (λ f. λ (t : Store S). continue (next t) (λ r. done (f.0 ∷ r.0, f.1 ++ r.1)))
        ≡ ((next first.0).0, ok (f.0 ∷ r.0, f.1 ++ r.1))
  join_ends first next f r head tail =
      ap
        (λ x.
          continue x (λ f. λ (t : Store S). continue (next t) (λ r. done (f.0 ∷ r.0, f.1 ++ r.1))))
        head
      ∙ ap
          (λ x. continue {B = List Association × List String} x (λ r. done (f.0 ∷ r.0, f.1 ++ r.1)))
          tail

  add_devices-cons :
      (device : String) (devices : List String) (s : Store S)
      → Adds (for_device project device) s (add_device (on_rows_env env) project device s)
      → AddsAll devices (add_device (on_rows_env env) project device s).0 (
          add_devices
            (on_rows_env env)
            project
            devices
            (add_device (on_rows_env env) project device s).0)
      → AddsAll (device ∷ devices) s (add_devices (on_rows_env env) project (device ∷ devices) s)
  unfolding add_devices
  add_devices-cons device devices s a all =
      subst (AddsAll (device ∷ devices) s)
        (sym (
          join_ends (add_device (on_rows_env env) project device s)
            (add_devices (on_rows_env env) project devices) a.value all.values a.ends all.all_end))
        (record {
          values = _;
          all_end = refl;
          all_keep = λ q h. all.all_keep q (a.keeps q h);
          all_covered = λ other.
              In-cons
                (λ x.
                  any
                    (add_devices (on_rows_env env) project devices
                      (add_device (on_rows_env env) project device s).0).0.associations
                    (for_device project x)
                  ≡ true)
                device devices other (all.all_keep (for_device project device) a.covers)
                all.all_covered;
          all_once = λ h.
              (all.all_once (λ other m. a.keeps (for_device project other) (h other (there m)))
                ∙ a.once (h device here));
        })

  add_devices-AddsAll :
      (devices : List String) (s : Store S)
      → AddsAll devices s (add_devices (on_rows_env env) project devices s)
  unfolding add_devices
  add_devices-AddsAll [] s = record {
    values = ([], []);
    all_end = refl;
    all_keep = λ q h. h;
    all_covered = λ device member. elim member [ ];
    all_once = λ h. refl;
  }
  add_devices-AddsAll (device ∷ devices) s =
      add_devices-cons device devices s (add_device-Adds device s)
        (add_devices-AddsAll devices (add_device (on_rows_env env) project device s).0)

all-from-In :
    (test : String → Bool) (xs : List String)
    → ((x : String) → In x xs → test x ≡ true)
    → all xs test ≡ true
all-from-In test [] h = refl
all-from-In test (x ∷ xs) h = rw (h x here, all-from-In test xs (λ y m. h y (there m))) refl

all-In :
    (test : String → Bool) (xs : List String) (x : String)
    → all xs test ≡ true
    → In x xs
    → test x ≡ true
all-In test [] x h m = elim m [ ]
all-In test (y ∷ xs) x h here = ground arith
all-In test (y ∷ xs) x h (there m) = all-In test xs x (ground arith) m

-- For an environment whose tables are read and written as SQL does: after `add_devices` every
-- device of its list has an association with the map, and to call it again with the same list
-- leaves the store as it is.
pub add_devices-once :
    {S : Type 0} (env : Env S) (sql : IsSql env.orm) (project : ℕ) (devices : List String)
    (s : Store S)
    → (all devices (λ device.
          any (add_devices env project devices s).0.associations (for_device project device))
        ≡ true)
      × ((add_devices env project devices (add_devices env project devices s).0).0
          ≡ (add_devices env project devices s).0)
add_devices-once env sql project devices s =
    by_rows
      (λ orm.
        (all devices (λ device.
            any (add_devices (record env { orm = orm }) project devices s).0.associations
              (for_device project device))
          ≡ true)
        × ((add_devices (record env { orm = orm }) project devices
              (add_devices (record env { orm = orm }) project devices s).0).0
            ≡ (add_devices (record env { orm = orm }) project devices s).0))
      env.orm sql
      (let first = add_devices-AddsAll env project devices s in
        let second =
          add_devices-AddsAll env project devices
            (add_devices (on_rows_env env) project devices s).0 in
        (all-from-In _ devices first.all_covered, second.all_once first.all_covered))
