-- ===== src/Sync/Rows/Index.antt =====
-- `index_existing_records` of src/pipeline/sync.rs.
use lark_utils_exp.Prelude.{List, [], ◌∷◌, Option, none, some, ◌≡◌, if◌then◌else◌}
use lark_utils_exp.Text.{Text, text_eq}
use lark_utils_exp.Json.{Map}
use lark_utils_exp.Host.{Host}
use lark_utils_exp.Sync.Rows.{BitableRecord, ExistingRecordIndexItem, Index, lookup, indexed_key}
use lark_utils_exp.Sync.Rows.Keys.{Distinct, AreNew}

abbrev or_else : {A : Type 0} → Option A → Option A → Option A
or_else none o = o
or_else (some a) o = some a

abbrev pub item_of : BitableRecord → Map → ExistingRecordIndexItem
item_of r m = record { record_id = r.record_id; fields = m }

module _ (h : Host) (key_field : Text) where
  -- The keys of the records that have one, in order.
  unfoldable pub record_keys : List BitableRecord → List Text
  record_keys [] = []
  record_keys (r ∷ records) = elim (indexed_key h key_field r) [
    | none ↦ record_keys records
    | some (m, key) ↦ key ∷ record_keys records
  ]

  -- The first record with a key.
  unfoldable pub find_record : Text → List BitableRecord → Option ExistingRecordIndexItem
  find_record key [] = none
  find_record key (r ∷ records) = elim (indexed_key h key_field r) [
    | none ↦ find_record key records
    | some (m, j) ↦ if text_eq j key then some (item_of r m) else find_record key records
  ]

  abbrev Indexes : Index → List BitableRecord → Index → Type 0
  Indexes index records out =
      AreNew index (record_keys records)
      × Distinct (record_keys records)
      × ((key : Text) → lookup key out ≡ or_else (lookup key index) (find_record key records))
