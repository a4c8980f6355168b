-- ===== src/Files.antt =====
-- internal/files/file.go and internal/files/object_node.go.
pub mod Simple
pub mod System
mod Tests
use nobl9_language_server.Base.{
  ℕ, zero, suc, Bool, true, false, ◌&&◌, Option, none, some, List, [], ◌∷◌, ltb, leb, if◌then◌else◌,
  Exec, ok, err, panic, out_of_fuel, ◌>>=◌, Error, not_an_object, invalid_version, invalid_kind,
  map,
}
use nobl9_language_server.Text.{Bytes, codes, equal}
use nobl9_language_server.Manifest.{Kind, no_kind, Object}
use nobl9_language_server.YamlAst.{Node, YamlDocument, parse}
use Simple.{Sdk, SimpleObjectNode, parse_simple_object_file}

-- What an error result leaves: the error, or nil.
abbrev pub Err : Type 0
Err = Option Error

pub record ObjectNode (N : Type 0) : Type 0 where
  pub kind : Kind
  pub version : Bytes
  pub object : Option Object
  pub node : Node N
  pub error : Err

-- An `int`.
pub data ℤ : Type 0 where
  pos negsuc : ℕ → ℤ

-- `a > b`.
unfoldable pub is_later : ℤ → ℤ → Bool
is_later (pos a) (pos b) = ltb b a
is_later (pos a) (negsuc b) = true
is_later (negsuc a) (pos b) = false
is_later (negsuc a) (negsuc b) = ltb a b

pub record File (N : Type 0) : Type 0 where
  pub uri : Bytes
  pub content : Bytes
  pub version : ℤ
  pub skip : Bool
  pub objects : List (ObjectNode N)
  pub simple_ast : List SimpleObjectNode
  pub error : Err

-- goccy/go-yaml and the decoder: the documents of a text, the entries of a mapping as far as keys
-- and values are strings, and an object of a kind decoded from a node.
pub record Decoder (N : Type 0) : Type 0 where
  pub parser : Bytes → Exec (List (YamlDocument N))
  pub fields : N → Option (List (Option Bytes × Option Bytes))
  pub decode : Kind → N → Exec Object

module _ {N : Type 0} (sdk : Sdk) (decoder : Decoder N) where
  abbrev pub Inferred : Type 0
  Inferred = Bytes × Kind × Err

  -- One entry of the loop of `inferObjectVersionAndKind`.
  unfoldable pub infer_entry : Bytes → Bytes → Bytes → Kind → Inferred
  unfolding codes equal
  infer_entry key value version kind =
      if equal key (codes "apiVersion")
      then (
        sdk.parse_version value,
        kind,
        if sdk.is_version value then none else some invalid_version,
      )
      else if equal key (codes "kind")
      then (version, sdk.parse_kind value, if sdk.is_kind value then none else some invalid_kind)
      else (version, kind, none)

  unfoldable pub next_entry : (Bytes → Kind → Inferred) → Inferred → Inferred
  next_entry go (version, kind, none) = go version kind
  next_entry go (version, kind, some e) = (version, kind, some e)

  unfoldable pub infer_entries : Bytes → Kind → List (Option Bytes × Option Bytes) → Inferred
  unfolding infer_entry next_entry
  infer_entries version kind [] = (version, kind, none)
  infer_entries version kind ((some key, some value) ∷ rest) =
      next_entry (λ v k. infer_entries v k rest) (infer_entry key value version kind)
  infer_entries version kind (_ ∷ rest) = infer_entries version kind rest

  -- `inferObjectVersionAndKind`, of a node that may be nil.
  unfoldable pub infer_version_and_kind : Option N → Inferred
  unfolding infer_entries
  infer_version_and_kind none = ([], no_kind, some not_an_object)
  infer_version_and_kind (some n) = elim (decoder.fields n) [
    | none ↦ ([], no_kind, some not_an_object)
    | some entries ↦ infer_entries [] no_kind entries
  ]

  -- `decodeV1alphaObject` and `genericParseObject`.
  unfoldable pub decode_v1alpha_object : Kind → N → Exec Object
  decode_v1alpha_object no_kind n = err invalid_kind
  decode_v1alpha_object kind n = decoder.decode kind n

  unfoldable pub decode_object : Bytes → Kind → N → Exec Object
  unfolding decode_v1alpha_object equal
  decode_object version kind n =
      if equal version sdk.version_v1alpha
      then decode_v1alpha_object kind n
      else err invalid_version

  -- The object and the error of a decoding that returned.
  unfoldable pub with_decoded : ObjectNode N → Exec Object → Exec (ObjectNode N)
  with_decoded o (ok object) = ok (record o { object = some object; error = none })
  with_decoded o (err e) = ok (record o { object = none; error = some e })
  with_decoded o panic = panic
  with_decoded o out_of_fuel = out_of_fuel

  unfoldable pub decode_inferred : Node N → Inferred → Exec (ObjectNode N)
  unfolding decode_object with_decoded
  decode_inferred node (version, kind, some e) =
      ok (record { kind = kind; version = version; object = none; node = node; error = some e })
  decode_inferred node (version, kind, none) =
      let o : ObjectNode N = record {
        kind = kind;
        version = version;
        object = none;
        node = node;
        error = none;
      } in
      elim node.node [ none ↦ ok o | some n ↦ with_decoded o (decode_object version kind n) ]

  unfoldable pub parse_object_node : Node N → Exec (ObjectNode N)
  unfolding infer_version_and_kind decode_inferred
  parse_object_node node = decode_inferred node (infer_version_and_kind node.node)

  -- The loop over the nodes: the objects that were appended, and whether all calls returned.
  unfoldable pub append_object :
      Exec (ObjectNode N) → List (ObjectNode N) × Bool → List (ObjectNode N) × Bool
  append_object (ok o) (os, done) = (o ∷ os, done)
  append_object _ _ = ([], false)

  unfoldable pub parse_object_nodes : List (Node N) → List (ObjectNode N) × Bool
  unfolding parse_object_node append_object
  parse_object_nodes [] = ([], true)
  parse_object_nodes (n ∷ ns) = append_object (parse_object_node n) (parse_object_nodes ns)

  -- The file with what the parsers gave, and whether the call returned.
  unfoldable pub set_objects : File N → Exec (List (Node N)) → File N × Bool
  unfolding parse_object_nodes
  set_objects f (ok nodes) =
      let parsed = parse_object_nodes nodes in
      (record f { objects = parsed.0; error = none }, parsed.1)
  set_objects f (err e) = (record f { error = some e }, true)
  set_objects f _ = (record f { error = none }, false)

  unfoldable pub set_simple :
      File N → Exec (List SimpleObjectNode) → Exec (List (Node N)) → File N × Bool
  unfolding set_objects
  set_simple f (ok simple) nodes =
      set_objects (record f { simple_ast = simple; error = none }) nodes
  set_simple f (err e) nodes = (record f { simple_ast = []; error = some e }, true)
  set_simple f _ nodes = (f, false)

  -- `Update`; the flag is false where it panics or does not end, with the fields set before that.
  unfoldable pub update : ℤ → Bytes → File N → File N × Bool
  unfolding is_later set_simple parse_simple_object_file parse
  update version content f =
      if is_later version f.version
      then set_simple (record f { version = version; content = content; skip = false })
          (parse_simple_object_file sdk content) (parse decoder.parser content)
      else (f, true)

unfoldable pub update_skipped : {N : Type 0} → ℤ → Bytes → File N → File N
unfolding is_later
update_skipped version content f =
    if is_later version f.version
    then record f { version = version; content = content; skip = true }
    else f

-- `FindObject`, over the objects of the file.
unfoldable pub find_object : {N : Type 0} → List (ObjectNode N) → ℕ → Option (ObjectNode N)
find_object [] line = none
find_object (o ∷ os) line =
    if leb o.node.start_line line && leb line o.node.end_line then some o else find_object os line
