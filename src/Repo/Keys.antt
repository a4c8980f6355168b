-- ===== src/Repo/Keys.antt =====
-- The keys of the cache tell the look-ups apart.
use nobl9_language_server.Base.{
  ◌≡◌, ◌≢◌, refl, sym, ap, ◌∙◌, inl, inr, Bool, true, false, ◌&&◌, not, List, [], ◌∷◌, ◌++◌, ◌==◌,
  if◌then◌else◌, All, Bool-cases,
}
use nobl9_language_server.Text.{Bytes, codes, equal}
use nobl9_language_server.Manifest.{
  Kind, kind_name, no_kind, service_kind, slo_kind, project_kind, agent_kind, direct_kind,
  alert_kind, alert_method_kind, alert_policy_kind, alert_silence_kind, role_binding_kind,
  data_export_kind, annotation_kind, user_group_kind, budget_adjustment_kind, report_kind,
}
use nobl9_language_server.Repo.{names_key, object_key, user_key, roles_key}

abbrev pub IsColonFree : Bytes → Type 0
IsColonFree = All (λ c. c ≢ b':')

-- The part in front of the first colon, and that behind it, are determined.
colon_split :
    (a b x y : Bytes)
    → IsColonFree a
    → IsColonFree b
    → a ++ b':' ∷ x ≡ b ++ b':' ∷ y
    → (a ≡ b) × (x ≡ y)
colon_split [] [] x y h k e = (refl, cc)
colon_split [] (d ∷ b) x y h (other, k) e = absurd (other (cc))
colon_split (c ∷ a) [] x y (other, h) k e = absurd (other (cc))
colon_split (c ∷ a) (d ∷ b) x y (other, h) (another, k) e =
    let first : c ≡ d = cc in
    let rest : a ++ b':' ∷ x ≡ b ++ b':' ∷ y = cc in
    let (same, behind) = colon_split a b x y h k rest in (cc, behind)

abbrev has_no_colon : Bytes → Bool
has_no_colon [] = true
has_no_colon (c ∷ cs) = not (c == b':') && has_no_colon cs

has_no_colon-IsColonFree : (s : Bytes) → has_no_colon s ≡ true → IsColonFree s
has_no_colon-IsColonFree [] h = tt
has_no_colon-IsColonFree (c ∷ cs) h = elim (Bool-cases (c == b':')) [
  | inl colon ↦ absurd (cannot colon h)
  | inr other ↦ ((λ same. cc), has_no_colon-IsColonFree cs (rw other at h))
]
  where
    cannot : (c == b':') ≡ true → has_no_colon (c ∷ cs) ≡ true → ⊥
    cannot e g = let g' = rw e at g in cc

abbrev kinds : List Kind
kinds =
    no_kind ∷ service_kind ∷ slo_kind ∷ project_kind ∷ agent_kind ∷ direct_kind ∷ alert_kind
    ∷ alert_method_kind ∷ alert_policy_kind ∷ alert_silence_kind ∷ role_binding_kind
    ∷ data_export_kind ∷ annotation_kind ∷ user_group_kind ∷ budget_adjustment_kind ∷ report_kind
    ∷ []

-- The kind of that name.
abbrev kind_of : List Kind → Bytes → Kind
kind_of [] name = no_kind
kind_of (k ∷ ks) name = if equal (kind_name k) name then k else kind_of ks name

kind_of-kind_name : (k : Kind) → kind_of kinds (kind_name k) ≡ k
unfolding codes kind_name equal
kind_of-kind_name no_kind = refl
kind_of-kind_name service_kind = refl
kind_of-kind_name slo_kind = refl
kind_of-kind_name project_kind = refl
kind_of-kind_name agent_kind = refl
kind_of-kind_name direct_kind = refl
kind_of-kind_name alert_kind = refl
kind_of-kind_name alert_method_kind = refl
kind_of-kind_name alert_policy_kind = refl
kind_of-kind_name alert_silence_kind = refl
kind_of-kind_name role_binding_kind = refl
kind_of-kind_name data_export_kind = refl
kind_of-kind_name annotation_kind = refl
kind_of-kind_name user_group_kind = refl
kind_of-kind_name budget_adjustment_kind = refl
kind_of-kind_name report_kind = refl

kind_name_free : (k : Kind) → has_no_colon (kind_name k) ≡ true
unfolding codes kind_name
kind_name_free no_kind = refl
kind_name_free service_kind = refl
kind_name_free slo_kind = refl
kind_name_free project_kind = refl
kind_name_free agent_kind = refl
kind_name_free direct_kind = refl
kind_name_free alert_kind = refl
kind_name_free alert_method_kind = refl
kind_name_free alert_policy_kind = refl
kind_name_free alert_silence_kind = refl
kind_name_free role_binding_kind = refl
kind_name_free data_export_kind = refl
kind_name_free annotation_kind = refl
kind_name_free user_group_kind = refl
kind_name_free budget_adjustment_kind = refl
kind_name_free report_kind = refl

kind_name-IsColonFree : (k : Kind) → IsColonFree (kind_name k)
kind_name-IsColonFree k = has_no_colon-IsColonFree (kind_name k) (kind_name_free k)

behind_prefix : (p x y : Bytes) → p ++ x ≡ p ++ y → x ≡ y
behind_prefix [] x y e = e
behind_prefix (c ∷ p) x y e = behind_prefix p x y cc

-- The key of an object tells its kind, its name and its project, if the names have no colon.
pub object_key-injective :
    (k l : Kind) (name other project place : Bytes)
    → IsColonFree name
    → IsColonFree other
    → object_key k name project ≡ object_key l other place
    → (k ≡ l) × (name ≡ other) × (project ≡ place)
unfolding object_key
object_key-injective k l name other project place h g e =
    let (kinds_same, rest) =
      colon_split (kind_name k) (kind_name l) (name ++ b':' ∷ project) (other ++ b':' ∷ place)
        (kind_name-IsColonFree k) (kind_name-IsColonFree l)
        (behind_prefix (codes "GetObject:") (kind_name k ++ b':' ∷ (name ++ b':' ∷ project))
          (kind_name l ++ b':' ∷ (other ++ b':' ∷ place)) e) in
    let (same, places) = colon_split name other project place h g rest in
    (sym (kind_of-kind_name k) ∙ ap (kind_of kinds) kinds_same ∙ kind_of-kind_name l, same, places)

pub object_key-ne-names_key :
    (k l : Kind) (name project place : Bytes)
    → equal (object_key k name project) (names_key l place) ≡ false
unfolding object_key names_key codes equal
object_key-ne-names_key k l name project place = refl

pub object_key-ne-user_key :
    (k : Kind) (name project id : Bytes) → equal (object_key k name project) (user_key id) ≡ false
unfolding object_key user_key codes equal
object_key-ne-user_key k name project id = refl

pub object_key-ne-roles_key :
    (k : Kind) (name project : Bytes) → equal (object_key k name project) roles_key ≡ false
unfolding object_key roles_key codes equal
object_key-ne-roles_key k name project = refl
