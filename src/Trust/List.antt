-- ===== src/Trust/List.antt =====
-- `WorkspaceTrustStore.list` of src/gpthands/trust.py.
use gpthands.Prelude.{
  String, Bool, ◌&&◌, ◌||◌, none, some, List, [], ◌∷◌, ◌=?◌, if◌then◌else◌, lower, Result, ok,
  ◌>>=◌,
}
use gpthands.Json.{Json, text, obj, Fields, end, field, get, put}
use gpthands.State.{StateFile}
use gpthands.ReleaseGate.Defs.{text_before}
use gpthands.Trust.Defs.{load_store, workspaces_of}

-- {"id": key, **value}
unfoldable pub merge : Fields → Fields → Fields
merge row end = row
merge row (field k v rest) = merge (put k v row) rest

-- The rows of the records that are dicts.
unfoldable pub listed_rows : Fields → List Fields
listed_rows end = []
listed_rows (field key (obj value) rest) =
    merge (field "id" (text key) end) value ∷ listed_rows rest
listed_rows (field key _ rest) = listed_rows rest

module _ (str_of : Json → String) where
  -- str(row.get(key, ""))
  unfoldable pub row_text : String → Fields → String
  row_text key row = elim (get key row) [ none ↦ "" | some (text t) ↦ t | some v ↦ str_of v ]

  -- The order of the pairs of the label in lower case and the path.
  unfoldable pub row_before : Fields → Fields → Bool
  row_before a b =
      text_before (lower (row_text "label" a)) (lower (row_text "label" b))
      || ((lower (row_text "label" a) =? lower (row_text "label" b))
          && text_before (row_text "path" a) (row_text "path" b))

  unfoldable pub insert_listed : Fields → List Fields → List Fields
  insert_listed row [] = row ∷ []
  insert_listed row (other ∷ rows) =
      let later = insert_listed row rows in
      if row_before other row then other ∷ later else row ∷ other ∷ rows

  unfoldable pub sort_listed : List Fields → List Fields
  sort_listed [] = []
  sort_listed (row ∷ rows) = insert_listed row (sort_listed rows)

  unfoldable pub list_trusted : StateFile → Result (List Fields)
  list_trusted f = do stored ← load_store f; ok (sort_listed (listed_rows (workspaces_of stored)))
