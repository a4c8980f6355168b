-- ===== src/Repo/Tests.antt =====
-- A look-up of an object that is answered, and then from the cache.
use nobl9_language_server.Base.{ℕ, refl, none, some, [], ◌∷◌, ok, err, external, arith}
use nobl9_language_server.Text.{Bytes, codes, equal}
use nobl9_language_server.Manifest.{slo_kind, Object, other}
use nobl9_language_server.Repo.{Client, Cache, get_object, object_key}
use nobl9_language_server.Repo.Keys.{IsColonFree}
use nobl9_language_server.Repo.Freshness.{empty, object_looked_up}
use nobl9_language_server.Repo.Recency.{IsRecent, get_object-IsRecent}

abbrev an_object : Object
an_object = record { scope = some (codes "p"); spec = other }

abbrev answers : ℕ → Client
answers time = record {
  get_objects = λ kind header name. ok ((codes "a", an_object) ∷ []);
  get_users = λ phrase. err (external 0);
  get_roles = err (external 0);
  projects_wildcard = codes "*";
}

abbrev name_a : Bytes
name_a = codes "a"

name_a-IsColonFree : IsColonFree name_a
unfolding codes
name_a-IsColonFree = (omega arith, tt)

abbrev filled : Cache
filled = (get_object 0 7 (answers 7) (λ key. none) slo_kind name_a (codes "p")).0

get_object-IsRecent_example : IsRecent answers 7 9 slo_kind name_a (codes "p") (some an_object)
unfolding get_object object_key codes equal
get_object-IsRecent_example =
    get_object-IsRecent answers {now = 7} {c = filled} 9 slo_kind name_a (codes "p")
      {o = some an_object}
      (object_looked_up {now = 0} {c = λ key. none} 7 slo_kind name_a (codes "p") empty
        (omega arith) name_a-IsColonFree)
      (omega arith) name_a-IsColonFree refl
