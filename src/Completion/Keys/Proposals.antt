-- ===== src/Completion/Keys/Proposals.antt =====
-- What the completion of keys offers.
use nobl9_language_server.Base.{
  Bool, none, some, ◌||◌, ◌⊎◌, ℕ, ◌≡◌, List, [], ◌∷◌, ◌++◌, if◌then◌else◌, Exec, ok, err, panic,
  out_of_fuel,
}
use nobl9_language_server.Text.{Bytes, codes, equal, count}
use nobl9_language_server.Manifest.{Kind}
use nobl9_language_server.YamlAstSimple.Lines.{Line}
use nobl9_language_server.Completion.{Item, GetProperty}

-- How many colons a text has that is inserted in a line: one, unless the line has a colon behind a
-- key.
abbrev pub missing_colons : Line → ℕ
missing_colons line = elim line.colon [ none ↦ 1 | some c ↦ 0 ]

-- The paths of fields that the API fills in.
abbrev pub is_read_only : Bytes → Bool
is_read_only p =
    equal (codes "$.status") p
    || equal (codes "$.organization") p
    || equal (codes "$.oktaClientID") p
    || equal (codes "$.manifestSrc") p

-- The paths but the read-only ones.
abbrev pub offered : List Bytes → List Bytes
offered [] = []
offered (p ∷ ps) = let rest = offered ps in if is_read_only p then rest else p ∷ rest

-- The text is what stands behind the last dot of the path, or the whole path where it has no dot.
abbrev pub IsLastPart : Bytes → Bytes → Type 0
IsLastPart path text =
    (count b'.' text ≡ 0) × ((path ≡ text) ⊎ ((parents : Bytes) × (path ≡ parents ++ b'.' ∷ text)))

abbrev pub HasNoColon : Bytes → Type 0
HasNoColon p = count b':' p ≡ 0

module _ (docs : GetProperty) (kind : Kind) (line : Line) where
  abbrev pub FitsLine : Item → Type 0
  FitsLine item = count b':' item.insert_text ≡ missing_colons line

  -- An item for each path, in their order.
  abbrev pub AreOffers : List Bytes → List Item → Type 0
  AreOffers [] [] = Unit
  AreOffers (p ∷ ps) (item ∷ items) = IsLastPart p item.label × FitsLine item × AreOffers ps items
  AreOffers _ _ = ⊥

  -- What completing the paths gives: an item for each path that is offered; or the look-up of some
  -- property failed in this way.
  abbrev pub Offers : List Bytes → Exec (List Item) → Type 0
  Offers paths (ok items) = AreOffers (offered paths) items
  Offers paths (err e) = (p : Bytes) × (docs kind p ≡ err e)
  Offers paths panic = (p : Bytes) × (docs kind p ≡ panic)
  Offers paths out_of_fuel = (p : Bytes) × (docs kind p ≡ out_of_fuel)
