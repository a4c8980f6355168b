-- ===== src/Repo/Recency.antt =====
-- What `GetObject` returns, the API has answered within the retention.
use nobl9_language_server.Base.{
  some_same, ℕ, ◌+◌, ◌≤◌, ◌≡◌, refl, sym, ap, ◌∙◌, inl, inr, Option, none, some, List, Option-cases,
  Bool-cases, ltb, Exec, ok, err, panic, out_of_fuel, arith,
}
use nobl9_language_server.Text.{Bytes}
use nobl9_language_server.Manifest.{Kind, Object}
use nobl9_language_server.Repo.{
  Data, object_data, Entry, Cache, retention, cached, if_fresh, Client, object_key, object_in,
  first_object, fetch, look_up, object_header, get_object,
}
use nobl9_language_server.Repo.Keys.{IsColonFree}
use nobl9_language_server.Repo.Freshness.{Reached, Answered, Reached-Faithful}

-- An object that `GetObject` returned between `now` and `later`.
abbrev pub IsRecent : (ℕ → Client) → ℕ → ℕ → Kind → Bytes → Bytes → Option Object → Type 0
IsRecent world now later kind name project o =
    (at : ℕ) × (at ≤ later)
    × (now ≤ at + retention)
    × ((objects : List (Bytes × Object)) × Answered world at kind name project objects
        × (o ≡ first_object objects))

ok_same : {x y : Option Object} → ◌≡◌ {A = Exec (Option Object)} (ok x) (ok y) → x ≡ y
ok_same {x} p = ap (λ o. elim o [ ok z ↦ z | err e ↦ x | panic ↦ x | out_of_fuel ↦ x ]) p

-- An entry that is used has not expired.
if_fresh-some :
    (now : ℕ) (o : Option Entry) {d : Data}
    → if_fresh now o ≡ some d
    → (e : Entry) × (o ≡ some e) × (now ≤ e.expires_at) × (e.data' ≡ d)
if_fresh-some now none h = cc
if_fresh-some now (some e) h = elim (Bool-cases (ltb e.expires_at now)) [
  | inl expired ↦ absurd (none_such (rw expired at h))
  | inr fresh ↦ (e, refl, ground arith, some_same (rw fresh at h))
]
  where
    none_such : {d : Data} → ◌≡◌ {A = Option Data} none (some d) → ⊥
    none_such p = cc

fetched-IsRecent :
    (world : ℕ → Client) (now later : ℕ) (c : Cache) (kind : Kind) (name project : Bytes)
    (answer : Exec (List (Bytes × Object))) {o : Option Object}
    → now ≤ later
    → (world later).get_objects kind (object_header (world later) project) (some name) ≡ answer
    → (fetch later
        (object_key kind name project)
        c
        (λ objects. object_data (first_object objects))
        object_in
        answer).1
      ≡ ok o
    → IsRecent world now later kind name project o
unfolding fetch
fetched-IsRecent world now later c kind name project (ok objects) after is h =
    (later, omega arith, omega arith, (objects, is, sym (ok_same h)))
fetched-IsRecent world now later c kind name project (err x) after is h = cc
fetched-IsRecent world now later c kind name project panic after is h = cc
fetched-IsRecent world now later c kind name project out_of_fuel after is h = cc

-- What `GetObject` returns for a name without a colon, after any look-ups of such names, is the first
-- object, or nil where there is none, of an answer that the API gave to this very look-up, no longer
-- ago than the retention.
pub get_object-IsRecent :
    (world : ℕ → Client) {now : ℕ} {c : Cache} (later : ℕ) (kind : Kind) (name project : Bytes)
    {o : Option Object}
    → Reached world now c
    → now ≤ later
    → IsColonFree name
    → (get_object now later (world later) c kind name project).1 ≡ ok o
    → IsRecent world now later kind name project o
unfolding get_object look_up cached
get_object-IsRecent world {now} {c} later kind name project {o} before after h r =
    elim (Option-cases (cached c now (object_key kind name project))) [
      | inl miss ↦
          fetched-IsRecent world now later c kind name project
            ((world later).get_objects kind (object_header (world later) project) (some name)) after
            refl (rw (miss, look_up) at r)
      | inr (d, hit) ↦ used d hit (ok_same (rw (hit, look_up) at r))
    ]
  where
    used :
        (d : Data)
        → cached c now (object_key kind name project) ≡ some d
        → object_in d ≡ o
        → IsRecent world now later kind name project o
    used d hit is =
        let (e, at_key, fresh, same) = if_fresh-some now (c (object_key kind name project)) hit in
        let (at, past, expires, (objects, answered, packed)) =
          Reached-Faithful world before kind name project e h at_key in
        (
          at,
          omega arith,
          omega arith,
          (objects, answered, sym is ∙ ap object_in (sym same ∙ packed)),
        )
