-- ===== src/Repo/Freshness.antt =====
-- Every entry for an object in the cache is an answer of the API.
use nobl9_language_server.Base.{
  ℕ, ◌+◌, ◌≤◌, ◌≡◌, ◌≢◌, refl, sym, ap, ◌∙◌, inl, inr, true, false, Option, none, some, List,
  Option-cases, Bool-cases, Exec, ok, err, panic, out_of_fuel, arith,
}
use mathlib.Core.Path.{subst}
use nobl9_language_server.Text.{Bytes, equal, equal_iff}
use nobl9_language_server.Manifest.{Kind, Object}
use nobl9_language_server.Repo.{
  Data, object_data, Entry, Cache, retention, cached, store, Client, object_key, names_key,
  user_key, roles_key, object_in, names_in, user_in, roles_in, first_object, fetch, look_up,
  get_all_names, object_header, get_object, get_user, get_roles,
}
use nobl9_language_server.Repo.Keys.{
  IsColonFree, object_key-injective, object_key-ne-names_key, object_key-ne-user_key,
  object_key-ne-roles_key,
}

-- The cache at a time, after look-ups of which each got the answer that the API gave when it stored it.
pub data Reached (world : ℕ → Client) : ℕ → Cache → Type 0 where
  empty : Reached world 0 (λ key. none)
  wait : {now later : ℕ} {c : Cache} → Reached world now c → now ≤ later → Reached world later c
  names_looked_up :
      {now : ℕ} {c : Cache} (later : ℕ) (kind : Kind) (project : Bytes)
      → Reached world now c
      → now ≤ later
      → Reached world later (get_all_names now later (world later) c kind project).0
  object_looked_up :
      {now : ℕ} {c : Cache} (later : ℕ) (kind : Kind) (name project : Bytes)
      → Reached world now c
      → now ≤ later
      → IsColonFree name
      → Reached world later (get_object now later (world later) c kind name project).0
  user_looked_up :
      {now : ℕ} {c : Cache} (later : ℕ) (id : Bytes)
      → Reached world now c
      → now ≤ later
      → Reached world later (get_user now later (world later) c id).0
  roles_looked_up :
      {now : ℕ} {c : Cache} (later : ℕ)
      → Reached world now c
      → now ≤ later
      → Reached world later (get_roles now later (world later) c).0

-- At the time `at` the API answered a look-up of that object with these objects.
abbrev pub Answered : (ℕ → Client) → ℕ → Kind → Bytes → Bytes → List (Bytes × Object) → Type 0
Answered world at kind name project objects =
    (world at).get_objects kind (object_header (world at) project) (some name) ≡ ok objects

-- The entry is such an answer, with its time.
abbrev IsAnswer : (ℕ → Client) → ℕ → Kind → Bytes → Bytes → Entry → Type 0
IsAnswer world now kind name project e =
    (at : ℕ) × (at ≤ now)
    × (e.expires_at ≡ at + retention)
    × ((objects : List (Bytes × Object)) × Answered world at kind name project objects
        × (e.data' ≡ object_data (first_object objects)))

abbrev pub Faithful : (ℕ → Client) → ℕ → Cache → Type 0
Faithful world now c =
    (kind : Kind) (name project : Bytes) (e : Entry)
    → IsColonFree name
    → c (object_key kind name project) ≡ some e
    → IsAnswer world now kind name project e

-- An entry of the cache after a look-up is an older one, or the answer stored under this very key.
fetch-entry {ℓ} :
    {A : Type ℓ} {R : Type 0} (P : Entry → Type 0) (later : ℕ) (key q : Bytes) (c : Cache)
    (pack : A → Data) (read : Data → R) (answer : Exec A)
    → ((e : Entry) → c q ≡ some e → P e)
    → (equal q key ≡ true
        → (a : A) → answer ≡ ok a
        → P (record { data' = pack a; expires_at = later + retention }))
    → (e : Entry) → (fetch later key c pack read answer).0 q ≡ some e
    → P e
unfolding fetch store
fetch-entry P later key q c pack read (ok a) old new e h = elim (Bool-cases (equal q key)) [
  | inl same ↦ subst P (some_entry (rw same at h)) (new same a refl)
  | inr other ↦ old e (rw other at h)
]
  where
    some_entry : {d e : Entry} → ◌≡◌ {A = Option Entry} (some d) (some e) → d ≡ e
    some_entry {d} p = ap (λ o. elim o [ none ↦ d | some x ↦ x ]) p
fetch-entry P later key q c pack read (err x) old new e h = old e h
fetch-entry P later key q c pack read panic old new e h = old e h
fetch-entry P later key q c pack read out_of_fuel old new e h = old e h

look_up-entry {ℓ} :
    {A : Type ℓ} {R : Type 0} (P : Entry → Type 0) (now later : ℕ) (key q : Bytes) (c : Cache)
    (pack : A → Data) (read : Data → R) (answer : Exec A)
    → ((e : Entry) → c q ≡ some e → P e)
    → (equal q key ≡ true
        → (a : A) → answer ≡ ok a
        → P (record { data' = pack a; expires_at = later + retention }))
    → (e : Entry) → (look_up now later key c pack read answer).0 q ≡ some e
    → P e
unfolding look_up
look_up-entry P now later key q c pack read answer old new e h =
    elim (Option-cases (cached c now key)) [
      | inl miss ↦ fetch-entry P later key q c pack read answer old new e (rw (miss, look_up) at h)
      | inr (d, hit) ↦ old e (rw (hit, look_up) at h)
    ]

older :
    (world : ℕ → Client) {now later : ℕ} (kind : Kind) (name project : Bytes) (e : Entry)
    → now ≤ later
    → IsAnswer world now kind name project e
    → IsAnswer world later kind name project e
older world kind name project e after (at, past, expires, rest) = (at, omega arith, expires, rest)

-- Nothing is stored under the key of an object by the other look-ups.
unrelated :
    (world : ℕ → Client) (later : ℕ) (kind : Kind) (name project key : Bytes)
    → equal (object_key kind name project) key ≡ false
    → (e : Entry) → equal (object_key kind name project) key ≡ true
    → IsAnswer world later kind name project e
unrelated world later kind name project key other e same = absurd (clash (sym other ∙ same))
  where
    clash : false ≢ true
    clash = λ p. cc

stored_under :
    (world : ℕ → Client) (later : ℕ) (k kind : Kind) (n name p project : Bytes)
    → IsColonFree n
    → IsColonFree name
    → equal (object_key k n p) (object_key kind name project) ≡ true
    → (objects : List (Bytes × Object)) → Answered world later kind name project objects
    → IsAnswer world later k n p
        (record { data' = object_data (first_object objects); expires_at = later + retention })
stored_under world later k kind n name p project h g same objects answered =
    let (kinds, names, projects) =
      object_key-injective k kind n name p project h g
        ((equal_iff (object_key k n p) (object_key kind name project)).0 same) in
    (later, omega arith, refl, (objects, rw (kinds, names, projects) answered, refl))

-- The entry under the key of an object is an answer after a look-up under another kind of key.
keep {ℓ} :
    (world : ℕ → Client) {A : Type ℓ} {R : Type 0} (now later : ℕ) (c : Cache) (key : Bytes)
    (pack : A → Data) (read : Data → R) (answer : Exec A)
    → now ≤ later
    → Faithful world now c
    → ((k : Kind) (n p : Bytes) → equal (object_key k n p) key ≡ false)
    → Faithful world later (look_up now later key c pack read answer).0
keep world now later c key pack read answer after old other k n p e h found =
    look_up-entry (IsAnswer world later k n p) now later key (object_key k n p) c pack read answer
      (λ d at. older world k n p d after (old k n p d h at))
      (λ same a is.
        unrelated world later k n p key (other k n p)
          (record { data' = pack a; expires_at = later + retention }) same)
      e found

object_looked_up-Faithful :
    (world : ℕ → Client) (now later : ℕ) (c : Cache) (kind : Kind) (name project : Bytes)
    → now ≤ later
    → IsColonFree name
    → Faithful world now c
    → Faithful world later (get_object now later (world later) c kind name project).0
unfolding get_object
object_looked_up-Faithful world now later c kind name project after g old k n p e h found =
    look_up-entry (IsAnswer world later k n p) now later (object_key kind name project)
      (object_key k n p) c (λ objects. object_data (first_object objects)) object_in
      ((world later).get_objects kind (object_header (world later) project) (some name))
      (λ d at. older world k n p d after (old k n p d h at))
      (λ same a is. stored_under world later k kind n name p project h g same a is) e found

pub Reached-Faithful :
    (world : ℕ → Client) {now : ℕ} {c : Cache} → Reached world now c → Faithful world now c
unfolding get_all_names get_user get_roles
Reached-Faithful world empty = λ k n p e h found. cc
Reached-Faithful world (wait before after) =
    λ k n p e h found. older world k n p e after (Reached-Faithful world before k n p e h found)
Reached-Faithful world (names_looked_up {now} {c} later kind project before after) =
    keep world now later c (names_key kind project) _ names_in _ after
      (Reached-Faithful world before) (λ k n p. object_key-ne-names_key k kind n p project)
Reached-Faithful world (object_looked_up {now} {c} later kind name project before after g) =
    object_looked_up-Faithful world now later c kind name project after g
      (Reached-Faithful world before)
Reached-Faithful world (user_looked_up {now} {c} later id before after) =
    keep world now later c (user_key id) _ user_in _ after (Reached-Faithful world before)
      (λ k n p. object_key-ne-user_key k n p id)
Reached-Faithful world (roles_looked_up {now} {c} later before after) =
    keep world now later c roles_key _ roles_in _ after (Reached-Faithful world before)
      (λ k n p. object_key-ne-roles_key k n p)
