-- ===== src/Hover/Templates.antt =====
-- internal/hover/templates.go, and the templates of internal/hover/templates as text/template
-- executes them.
pub mod Escaping
use nobl9_language_server.Base.{
  ℕ, suc, Bool, true, false, ◌||◌, List, [], ◌∷◌, ◌++◌, ◌==◌, if◌then◌else◌,
}
use nobl9_language_server.Text.{Bytes, codes}
use nobl9_language_server.Manifest.{Kind, kind_name}
use nobl9_language_server.SdkDocs.{RulePlan}
use nobl9_language_server.Completion.References.{User}

-- `markdownSpecialCharacters`.
unfoldable pub markdown_special_characters : Bytes
unfolding codes
markdown_special_characters = codes "\\`*_{}[]<>()#+-.!|"

unfoldable pub is_one_of : Bytes → ℕ → Bool
is_one_of [] c = false
is_one_of (d ∷ ds) c = d == c || is_one_of ds c

unfoldable pub is_special : ℕ → Bool
unfolding is_one_of markdown_special_characters
is_special c = is_one_of markdown_special_characters c

-- The replacer, of which all old texts are single bytes.
unfoldable pub markdown_escape : Bytes → Bytes
markdown_escape [] = []
markdown_escape (c ∷ cs) =
    let rest = markdown_escape cs in if is_special c then b'\\' ∷ c ∷ rest else c ∷ rest

pub record PropertyDocData : Type 0 where
  pub name : Bytes
  pub type_name : Bytes
  pub doc : Bytes
  pub rules : List RulePlan
  pub examples : List Bytes

pub record ObjectDocData : Type 0 where
  pub kind : Kind
  pub name : Bytes
  pub description : Bytes
  pub yaml : Bytes

-- `{{ if x }}` of a text, with a text in front of it.
abbrev pub if_filled : Bytes → Bytes → Bytes → Bytes
if_filled before [] after = []
if_filled before (c ∷ cs) after = before ++ ((c ∷ cs) ++ after)

unfoldable pub conditions_doc : List Bytes → Bytes
unfolding codes markdown_escape
conditions_doc [] = []
conditions_doc (c ∷ cs) = codes "\n  - " ++ (markdown_escape c ++ conditions_doc cs)

abbrev pub if_conditions : List Bytes → Bytes
if_conditions [] = []
if_conditions (c ∷ cs) = codes "\n  Conditions:" ++ conditions_doc (c ∷ cs)

unfoldable pub rules_doc : List RulePlan → Bytes
unfolding codes markdown_escape conditions_doc
rules_doc [] = []
rules_doc (r ∷ rs) =
    codes "\n- "
    ++ (markdown_escape r.description
        ++ (if_filled (codes "; ") (markdown_escape r.details) []
            ++ (if_conditions r.conditions ++ rules_doc rs)))

abbrev pub if_rules : List RulePlan → Bytes
if_rules [] = []
if_rules (r ∷ rs) = codes "\n\n**Validation rules:**\n" ++ rules_doc (r ∷ rs)

unfoldable pub examples_doc : List Bytes → Bytes
unfolding codes
examples_doc [] = []
examples_doc (e ∷ es) = codes "\n---\n" ++ (e ++ examples_doc es)

abbrev pub if_examples : List Bytes → Bytes
if_examples [] = []
if_examples (e ∷ es) =
    codes "\n\n**Examples:**\n\n```yaml\n" ++ (e ++ (examples_doc es ++ codes "\n```"))

-- property-doc.tpl.md.
unfoldable pub property_doc_tpl : PropertyDocData → Bytes
unfolding codes rules_doc examples_doc
property_doc_tpl d =
    codes "`"
    ++ (d.name
        ++ (b':'
            ∷ (d.type_name
                ++ (codes "`"
                    ++ (if_filled (codes "\n\n") d.doc []
                        ++ (if_rules d.rules ++ if_examples d.examples))))))

-- object-doc.tpl.md.
unfoldable pub object_doc_tpl : ObjectDocData → Bytes
unfolding codes kind_name
object_doc_tpl d =
    codes "`"
    ++ (d.name
        ++ (codes "` "
            ++ (kind_name d.kind
                ++ (if_filled (codes "\n\n") d.description []
                    ++ (codes "\n\n```yaml\n" ++ (d.yaml ++ codes "```"))))))

-- user-doc.tpl.md.
unfoldable pub user_doc_tpl : User → Bytes
unfolding codes
user_doc_tpl u =
    codes "`"
    ++ (u.user_id
        ++ (codes "` User\n\n- Name: "
            ++ (u.first_name ++ (b' ' ∷ (u.last_name ++ (codes "\n- Email: " ++ u.email))))))
