-- ===== src/Hover/Provider.antt =====
-- internal/hover/provider.go. `yaml.Marshal`, and the kind and the name that an object of nobl9-go
-- says it has, are parameters.
pub mod Scoping
pub mod MetricSource
use nobl9_language_server.Base.{
  ℕ, ◌+◌, ◌-◌, Bool, true, false, ◌&&◌, ◌||◌, not, Option, none, some, List, [], ◌∷◌, ltb, drop,
  if◌then◌else◌, Exec, ok, err, panic, out_of_fuel, ◌>>=◌,
}
use nobl9_language_server.Text.{Bytes, codes, equal, last_index}
use nobl9_language_server.Text.Runes.{trim_space}
use nobl9_language_server.Manifest.{
  Kind, slo_kind, role_binding_kind, user_group_kind, same_kind, is_blank, Object,
}
use nobl9_language_server.YamlAstSimple.Lines.{Line, get_key_pos, get_map_value}
use nobl9_language_server.Files.Simple.{
  Sdk, SimpleObjectNode, find_object_line, parse_simple_object_file,
}
use nobl9_language_server.ObjectRef.{Reference, get, is_project_scoped}
use nobl9_language_server.SdkDocs.{PropertyDoc, RulePlan}
use nobl9_language_server.Locate.{value_of_line, get_line_value_for_path, get_project_name_from_ref}
use nobl9_language_server.Completion.{GetProperty}
use nobl9_language_server.Completion.References.{User, map_value, or_agent}
use nobl9_language_server.Hover.Templates.{
  PropertyDocData, ObjectDocData, property_doc_tpl, object_doc_tpl, user_doc_tpl,
}

-- A text of documentation, blank where there is none.
abbrev pub Docs : Type 0
Docs = Exec Bytes

-- An error is logged, and there is no documentation.
infixl 5 ◌or_blank◌
abbrev pub ◌or_blank◌ {ℓ} : {A : Type ℓ} → Exec A → (A → Docs) → Docs
(ok a) or_blank f = f a
(err e) or_blank f = ok []
panic or_blank f = panic
out_of_fuel or_blank f = out_of_fuel

pub record HoverRepo : Type 0 where
  pub get_object : Kind → Bytes → Bytes → Exec (Option Object)
  pub get_user : Bytes → Exec (Option User)

-- Objects of nobl9-go as documents.
pub record Printing : Type 0 where
  pub marshal : Object → Exec Bytes
  pub get_kind : Object → Kind
  pub get_name : Object → Bytes

-- `filterSlice` with the condition on the rules.
unfoldable pub is_described : RulePlan → Bool
unfolding codes equal is_blank
is_described r = not (is_blank r.description) && not (equal r.description (codes "TODO"))

unfoldable pub filter_rules : (RulePlan → Bool) → List RulePlan → List RulePlan
filter_rules f [] = []
filter_rules f (r ∷ rs) = let rest = filter_rules f rs in if f r then r ∷ rest else rest

-- What stands behind the last dot, or the whole path.
unfoldable pub property_name : Bytes → Bytes
unfolding last_index
property_name path = elim (last_index b'.' path) [ none ↦ path | some i ↦ drop (i + 1) path ]

unfoldable pub build_property_docs : PropertyDoc → Bytes
unfolding property_name filter_rules is_described property_doc_tpl
build_property_docs p = property_doc_tpl (record {
  name = property_name p.path;
  type_name = p.type_name;
  doc = p.doc;
  rules = filter_rules is_described p.rules;
  examples = p.examples;
})

-- `""` in the YAML is no description.
abbrev pub unless_quotes : Bytes → Bytes
unless_quotes v = if equal v (b'"' ∷ b'"' ∷ []) then [] else v

abbrev pub description_in : List SimpleObjectNode → Docs
description_in [] = ok []
description_in (node ∷ nodes) =
    value_of_line (find_object_line node (codes "$.spec.description")) >>= λ v. ok (unless_quotes v)

abbrev pub docs_of_property : Option PropertyDoc → Docs
docs_of_property none = ok []
docs_of_property (some p) = ok (build_property_docs p)

abbrev pub docs_of_user : Option User → Docs
docs_of_user none = ok []
docs_of_user (some u) = ok (user_doc_tpl u)

module _ (sdk : Sdk) (docs : GetProperty) (repo : HoverRepo) (printing : Printing) where
  unfoldable pub find_object_description : Bytes → Docs
  unfolding parse_simple_object_file codes equal find_object_line get_map_value
  find_object_description raw = parse_simple_object_file sdk raw or_blank description_in

  unfoldable pub build_object_docs : Object → Docs
  unfolding find_object_description object_doc_tpl
  build_object_docs o = printing.marshal o or_blank λ yaml.
      find_object_description yaml >>= λ description. ok (
        object_doc_tpl (record {
          kind = printing.get_kind o;
          name = printing.get_name o;
          description = description;
          yaml = yaml;
        }))

  abbrev pub docs_of_object : Option Object → Docs
  docs_of_object none = ok []
  docs_of_object (some o) = build_object_docs o

  unfoldable pub generate_object_docs : SimpleObjectNode → Line → Reference → Docs
  unfolding get_project_name_from_ref is_blank is_project_scoped get_map_value build_object_docs
  generate_object_docs node l r = get_project_name_from_ref node r >>= λ project.
      if is_blank project && is_project_scoped r.kind
      then ok []
      else (map_value l >>= λ name. repo.get_object r.kind name project or_blank docs_of_object)

  -- The test of the error is `err == nil`.
  unfoldable pub generate_slo_metric_source_docs : SimpleObjectNode → Line → Reference → Docs
  unfolding codes get_line_value_for_path or_agent generate_object_docs
  generate_slo_metric_source_docs node l r =
      get_line_value_for_path node (codes "$.spec.indicator.metricSource.kind") >>= λ raw_kind.
      if sdk.is_kind raw_kind
      then ok []
      else generate_object_docs node l (record r { kind = or_agent (sdk.parse_kind raw_kind) })

  unfoldable pub generate_user_docs : Line → Docs
  unfolding get_map_value user_doc_tpl
  generate_user_docs l = map_value l >>= λ id. repo.get_user id or_blank docs_of_user

  -- The switch.
  unfoldable pub generate_reference_docs : SimpleObjectNode → Line → Reference → Docs
  unfolding codes equal same_kind generate_slo_metric_source_docs generate_user_docs
      generate_object_docs
  generate_reference_docs node l r =
      if same_kind node.kind slo_kind && equal r.path (codes "$.spec.indicator.metricSource.name")
      then generate_slo_metric_source_docs node l r
      else if same_kind node.kind role_binding_kind && equal r.path (codes "$.spec.user")
      then generate_user_docs l
      else if same_kind node.kind user_group_kind && equal r.path (codes "$.spec.members[*].id")
      then generate_user_docs l
      else generate_object_docs node l r

  unfoldable pub generate_property_value_doc : SimpleObjectNode → Line → Docs
  unfolding get_map_value trim_space is_blank get generate_reference_docs
  generate_property_value_doc node l = map_value l >>= λ value.
      if is_blank (trim_space value)
      then ok []
      else elim (get node.kind l) [ none ↦ ok [] | some r ↦ generate_reference_docs node l r ]

  unfoldable pub generate_property_key_doc : Kind → Line → Docs
  unfolding build_property_docs
  generate_property_key_doc kind l = docs kind l.generalized_path >>= docs_of_property

  abbrev pub or_key_doc : Kind → Line → Bytes → Docs
  or_key_doc kind l [] = generate_property_key_doc kind l
  or_key_doc kind l (c ∷ cs) = ok (c ∷ cs)

  abbrev pub response_of : Bytes → Option Bytes
  response_of [] = none
  response_of (c ∷ cs) = some (c ∷ cs)

  -- `Hover`, at a character.
  unfoldable pub hover : ℕ → SimpleObjectNode → Line → Exec (Option Bytes)
  unfolding get_key_pos generate_property_value_doc generate_property_key_doc
  hover c node l =
      (if ltb (get_key_pos l).1 c
        then generate_property_value_doc node l >>= or_key_doc node.kind l
        else generate_property_key_doc node.kind l)
      >>= λ text. ok (response_of text)
