-- ===== src/Repo.antt =====
-- internal/nobl9repo: the look-ups of objects, users and roles, through a cache of what the API said.
pub mod Keys
pub mod Freshness
pub mod Recency
mod Tests
use nobl9_language_server.Base.{
  ℕ, ◌+◌, Bool, true, false, Option, none, some, List, [], ◌∷◌, ◌++◌, ltb, if◌then◌else◌, Exec, ok,
  err, panic, out_of_fuel, map,
}
use nobl9_language_server.Text.{Bytes, codes, equal}
use nobl9_language_server.Manifest.{Kind, kind_name, Object, is_blank}
use nobl9_language_server.Diagnostics.{Roles}

-- What is cached, with its type as `any` keeps it.
pub data Data : Type 0 where
  names_data : List Bytes → Data
  object_data : Option Object → Data
  user_data : Option Bytes → Data
  roles_data : Roles → Data

pub record Entry : Type 0 where
  pub data' : Data
  pub expires_at : ℕ

abbrev pub Cache : Type 0
Cache = Bytes → Option Entry

-- `retention`, five minutes in nanoseconds.
abbrev pub retention : ℕ
retention = 300000000000

abbrev pub if_fresh : ℕ → Option Entry → Option Data
if_fresh now none = none
if_fresh now (some e) = if ltb e.expires_at now then none else some e.data'

-- `Get` at a time; an entry is used up to and at the time when it expires.
unfoldable pub cached : Cache → ℕ → Bytes → Option Data
cached cache now key = if_fresh now (cache key)

-- `Put` at a time.
unfoldable pub store : ℕ → Bytes → Data → Cache → Cache
unfolding equal
store now key d cache =
    λ k. if equal k key then some (record { data' = d; expires_at = now + retention }) else cache k

-- The API as it answers at some time: objects, with their names, by kind, project header and name;
-- users by phrase; and roles. `projects_wildcard` is the header for all projects.
pub record Client : Type 0 where
  pub get_objects : Kind → Bytes → Option Bytes → Exec (List (Bytes × Object))
  pub get_users : Bytes → Exec (List Bytes)
  pub get_roles : Exec Roles
  pub projects_wildcard : Bytes

-- The keys that `fmt.Sprintf` makes.
unfoldable pub names_key : Kind → Bytes → Bytes
unfolding codes kind_name
names_key kind project = codes "GetAllNames:" ++ (kind_name kind ++ b':' ∷ project)

unfoldable pub object_key : Kind → Bytes → Bytes → Bytes
unfolding codes kind_name
object_key kind name project =
    codes "GetObject:" ++ (kind_name kind ++ b':' ∷ (name ++ b':' ∷ project))

unfoldable pub user_key : Bytes → Bytes
unfolding codes
user_key id = codes "GetUser:" ++ id

unfoldable pub roles_key : Bytes
unfolding codes
roles_key = codes "GetRoles"

-- The casts of cached data: data of another type is a nil value.
abbrev pub names_in : Data → List Bytes
names_in (names_data names) = names
names_in _ = []

abbrev pub object_in : Data → Option Object
object_in (object_data o) = o
object_in _ = none

abbrev pub user_in : Data → Option Bytes
user_in (user_data u) = u
user_in _ = none

abbrev pub roles_in : Data → Option Roles
roles_in (roles_data r) = some r
roles_in _ = none

abbrev pub first_object : List (Bytes × Object) → Option Object
first_object [] = none
first_object ((name, o) ∷ rest) = some o

abbrev pub only_user : List Bytes → Option Bytes
only_user (u ∷ []) = some u
only_user _ = none

-- What a look-up does where the cache has nothing: the answer is stored at the time `later`, under
-- the key, as the data that it makes, and the value read from that data is returned.
unfoldable pub fetch {ℓ} :
    {A : Type ℓ} {R : Type 0}
    → ℕ
    → Bytes
    → Cache
    → (A → Data)
    → (Data → R)
    → Exec A
    → Cache × Exec R
unfolding store
fetch later key cache pack read (ok a) = (store later key (pack a) cache, ok (read (pack a)))
fetch later key cache pack read (err e) = (cache, err e)
fetch later key cache pack read panic = (cache, panic)
fetch later key cache pack read out_of_fuel = (cache, out_of_fuel)

unfoldable pub look_up {ℓ} :
    {A : Type ℓ} {R : Type 0}
    → ℕ
    → ℕ
    → Bytes
    → Cache
    → (A → Data)
    → (Data → R)
    → Exec A
    → Cache × Exec R
unfolding cached fetch
look_up now later key cache pack read answer = elim (cached cache now key) [
  | some d ↦ (cache, ok (read d))
  | none ↦ fetch later key cache pack read answer
]

unfoldable pub get_all_names : ℕ → ℕ → Client → Cache → Kind → Bytes → Cache × Exec (List Bytes)
unfolding look_up names_key
get_all_names now later client cache kind project =
    look_up now later (names_key kind project) cache
      (λ objects. names_data (map (λ (o : Bytes × Object). o.0) objects)) names_in
      (client.get_objects kind project none)

-- The header of a look-up without a project is that of all projects.
abbrev pub object_header : Client → Bytes → Bytes
object_header client project = if is_blank project then client.projects_wildcard else project

unfoldable pub get_object :
    ℕ → ℕ → Client → Cache → Kind → Bytes → Bytes → Cache × Exec (Option Object)
unfolding look_up object_key is_blank
get_object now later client cache kind name project =
    look_up now later (object_key kind name project) cache
      (λ objects. object_data (first_object objects)) object_in
      (client.get_objects kind (object_header client project) (some name))

unfoldable pub get_user : ℕ → ℕ → Client → Cache → Bytes → Cache × Exec (Option Bytes)
unfolding look_up user_key
get_user now later client cache id =
    look_up now later (user_key id) cache (λ users. user_data (only_user users)) user_in
      (client.get_users id)

unfoldable pub get_roles : ℕ → ℕ → Client → Cache → Cache × Exec (Option Roles)
unfolding look_up roles_key
get_roles now later client cache =
    look_up now later roles_key cache roles_data roles_in client.get_roles
