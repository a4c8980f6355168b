-- ===== src/Completion/Handler/Offers.antt =====
-- Which items are completed where, with the providers of internal/server/handlers_registry.go.
use nobl9_language_server.Base.{
  ℕ, ◌≤◌, ◌<◌, ◌≡◌, refl, sym, true, false, ◌||◌, not, Option, none, some, List, [], ◌∷◌, ◌++◌, All,
  All-append, ltb, leb, ◌⊎◌, inl, inr, Exec, ok, err, panic, out_of_fuel, ◌>>=◌, arith, if_intro,
  Bool-cases, Option-cases,
}
use mathlib.Core.Path.{subst}
use nobl9_language_server.YamlAstSimple.Lines.{Line, is_type, get_key_pos, empty}
use nobl9_language_server.Files.{File, Decoder}
use nobl9_language_server.Files.Simple.{Sdk, SimpleObjectNode}
use nobl9_language_server.Files.System.{Platform, Fs, get_file}
use nobl9_language_server.Locate.{locate}
use nobl9_language_server.Completion.{
  Item, ItemKind, property_completion, value_completion, snippet_completion, reference_completion,
  Params, keys_completion, values_completion, Provider, GetProperty,
}
use nobl9_language_server.Completion.Keys.{complete_keys, keys_provider}
use nobl9_language_server.Completion.Values.{Names, complete_values, values_provider}
use nobl9_language_server.Completion.References.{
  ObjectsRepo, Items, complete_references, references_provider,
}
use nobl9_language_server.Completion.Snippets.{Snippet, complete_snippets, snippets_provider}
use nobl9_language_server.Completion.References.Kinds.{complete_references-kind}
use nobl9_language_server.Completion.Kinds.{
  AllOf, HasKind, complete_keys-kind, complete_values-kind, complete_snippets-kind,
}
use nobl9_language_server.Completion.Handler.{
  is_empty_list, is_asked, ask_providers, ask_at, handle_completion,
}

-- At the key: within it, its end included, or on a line where a key may be begun.
abbrev pub AtKey : Line → ℕ → Type 0
AtKey l c =
    (is_empty_list l ≡ true)
    ⊎ (is_type l empty ≡ true)
    ⊎ (((get_key_pos l).0 ≤ c) × (c ≤ (get_key_pos l).1))

abbrev pub Fits : Line → ℕ → ItemKind → Type 0
Fits l c property_completion = AtKey l c
Fits l c snippet_completion = AtKey l c
Fits l c value_completion = (get_key_pos l).1 < c
Fits l c reference_completion = (get_key_pos l).1 < c

is_asked-keys : (l : Line) (c : ℕ) → is_asked keys_completion c l ≡ true → AtKey l c
unfolding is_asked
is_asked-keys l c h = elim (Bool-cases (is_empty_list l)) [
  | inl e ↦ inl e
  | inr e ↦ elim (Bool-cases (is_type l empty)) [
    | inl e' ↦ inr (inl e')
    | inr e' ↦ inr (inr (within (get_key_pos l).0 (get_key_pos l).1 (rw (e, e') at h)))
  ]
]
  where
    within : (start end : ℕ) → not (ltb c start || ltb end c) ≡ true → (start ≤ c) × (c ≤ end)
    within start end h = ground arith

is_asked-values : (l : Line) (c : ℕ) → is_asked values_completion c l ≡ true → (get_key_pos l).1 < c
unfolding is_asked
is_asked-values l c h = behind (get_key_pos l).1 h
  where
    behind : (end : ℕ) → not (leb c end) ≡ true → end < c
    behind end h = ground arith

AllOf-append :
    (P : Item → Type 0) (r s : Items)
    → AllOf P r
    → AllOf P s
    → AllOf P (r >>= λ items. s >>= λ more. ok (items ++ more))
AllOf-append P (ok items) (ok more) h k = All-append P items more h k
AllOf-append P (ok items) (err e) h k = tt
AllOf-append P (ok items) panic h k = tt
AllOf-append P (ok items) out_of_fuel h k = tt
AllOf-append P (err e) s h k = tt
AllOf-append P panic s h k = tt
AllOf-append P out_of_fuel s h k = tt

-- All items of a kind fit where that kind does.
All-fit :
    (l : Line) (c : ℕ) (k : ItemKind) (items : List Item)
    → Fits l c k
    → All (HasKind k) items
    → All (λ (item : Item). Fits l c item.kind) items
All-fit l c k [] h hs = tt
All-fit l c k (i ∷ is) h (e, hs) = (subst (λ j. Fits l c j) (sym e) h, All-fit l c k is h hs)

AllOf-fit :
    (l : Line) (c : ℕ) (k : ItemKind) (r : Items)
    → Fits l c k
    → AllOf (HasKind k) r
    → AllOf (λ (item : Item). Fits l c item.kind) r
AllOf-fit l c k (ok items) h hs = All-fit l c k items h hs
AllOf-fit l c k (err e) h hs = tt
AllOf-fit l c k panic h hs = tt
AllOf-fit l c k out_of_fuel h hs = tt

module _ (names : Names) (docs : GetProperty) (sdk : Sdk) (repo : ObjectsRepo)
    (snippets : List Snippet) where
  -- The providers of `newHandlersRegistry`.
  unfoldable pub providers : List Provider
  providers =
      values_provider names docs
      ∷ keys_provider docs
      ∷ references_provider sdk repo
      ∷ snippets_provider snippets
      ∷ []

  abbrev FitsAt : Line → ℕ → Items → Type 0
  FitsAt l c r = AllOf (λ (item : Item). Fits l c item.kind) r

  ask_first :
      (p : Provider) (ps : List Provider) (params : Params) (file : List SimpleObjectNode)
      (node : SimpleObjectNode) (l : Line)
      → (is_asked p.provider_type params.position.character l ≡ true
          → FitsAt l params.position.character (p.complete params file node l))
      → FitsAt l params.position.character (ask_providers ps params file node l)
      → FitsAt l params.position.character (ask_providers (p ∷ ps) params file node l)
  unfolding ask_providers
  ask_first p ps params file node l h later =
      if_intro {A = Items} (λ r. FitsAt l params.position.character r)
        (is_asked p.provider_type params.position.character l)
        (λ asked.
          AllOf-append (λ (item : Item). Fits l params.position.character item.kind)
            (p.complete params file node l) (ask_providers ps params file node l) (h asked) later)
        (λ _. later)

  ask_providers-fit :
      (params : Params) (file : List SimpleObjectNode) (node : SimpleObjectNode) (l : Line)
      → FitsAt l params.position.character (ask_providers providers params file node l)
  unfolding providers ask_providers
  ask_providers-fit params file node l =
      let c : ℕ = params.position.character in
      ask_first (values_provider names docs)
        (keys_provider docs ∷ references_provider sdk repo ∷ snippets_provider snippets ∷ []) params
        file node l
        (λ asked.
          AllOf-fit l c value_completion (complete_values names docs node l)
            (is_asked-values l c asked) (complete_values-kind names docs node l))
        (ask_first (keys_provider docs)
          (references_provider sdk repo ∷ snippets_provider snippets ∷ []) params file node l
          (λ asked.
            AllOf-fit l c property_completion (complete_keys docs node.kind l)
              (is_asked-keys l c asked) (complete_keys-kind docs node.kind l))
          (ask_first (references_provider sdk repo) (snippets_provider snippets ∷ []) params file
            node l
            (λ asked.
              AllOf-fit l c reference_completion
                (complete_references sdk repo params.trigger_character node l)
                (is_asked-values l c asked)
                (complete_references-kind sdk repo params.trigger_character node l))
            (ask_first (snippets_provider snippets) [] params file node l
              (λ asked.
                AllOf-fit l c snippet_completion
                  (ok (complete_snippets snippets params.position.line file l))
                  (is_asked-keys l c asked)
                  (complete_snippets-kind snippets params.position.line file l))
              tt)))

  module _ (platform : Platform) {N : Type 0} (decoder : Decoder N) where
    -- An answer is about the line located in the file, and a nil one is given of a skipped file or
    -- where no line is located.
    abbrev pub IsAnswer : Fs N → Params → Exec (Option (List Item)) → Type 0
    IsAnswer fs params (ok (some items)) =
        (file : File N) × (fs.files params.uri ≡ some file)
        × (file.skip ≡ false)
        × (node : SimpleObjectNode) × (l : Line) × (locate file.simple_ast params.position.line
            ≡ some (node, l))
        × All (λ (item : Item). Fits l params.position.character item.kind) items
    IsAnswer fs params (ok none) =
        (file : File N) × (fs.files params.uri ≡ some file)
        × ((file.skip ≡ true) ⊎ (locate file.simple_ast params.position.line ≡ none))
    IsAnswer fs params _ = Unit

    found_items-IsAnswer :
        (fs : Fs N) (params : Params) (file : File N) (node : SimpleObjectNode) (l : Line)
        (r : Items)
        → fs.files params.uri ≡ some file
        → file.skip ≡ false
        → locate file.simple_ast params.position.line ≡ some (node, l)
        → FitsAt l params.position.character r
        → IsAnswer fs params (r >>= λ items. ok (some items))
    found_items-IsAnswer fs params file node l (ok items) e open_file at h =
        (file, e, open_file, node, l, at, h)
    found_items-IsAnswer fs params file node l (err x) e open_file at h = tt
    found_items-IsAnswer fs params file node l panic e open_file at h = tt
    found_items-IsAnswer fs params file node l out_of_fuel e open_file at h = tt

    ask_at-IsAnswer :
        (fs : Fs N) (params : Params) (file : File N) (place : Option (SimpleObjectNode × Line))
        → fs.files params.uri ≡ some file
        → file.skip ≡ false
        → locate file.simple_ast params.position.line ≡ place
        → IsAnswer fs params (ask_at providers params file.simple_ast place)
    ask_at-IsAnswer fs params file none e open_file at = (file, e, inr at)
    ask_at-IsAnswer fs params file (some (node, l)) e open_file at =
        found_items-IsAnswer fs params file node l
          (ask_providers providers params file.simple_ast node l) e open_file at
          (ask_providers-fit params file.simple_ast node l)

    -- With the providers of the server, what is completed fits the place: values and references only
    -- behind the end of the key of the line located, and properties and snippets only from the start
    -- of the key to its end, on a blank line, or on an element of a list that has no key. The answer is
    -- nil only in a skipped file or where no line is located.
    pub handle_completion-IsAnswer :
        (fs : Fs N) (params : Params)
        → IsAnswer fs params (handle_completion platform sdk decoder providers fs params)
    unfolding handle_completion get_file
    handle_completion-IsAnswer fs params = elim (Option-cases (fs.files params.uri)) [
      | inl e ↦ rw (e, get_file) tt
      | inr (file, e) ↦
          rw (e, get_file)
            (if_intro {A = Exec (Option (List Item))} (λ r. IsAnswer fs params r) file.skip
              (λ skipped. (file, e, inl skipped))
              (λ open_file.
                ask_at-IsAnswer fs params file (locate file.simple_ast params.position.line) e
                  open_file refl))
    ]
