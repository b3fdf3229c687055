-- ===== src/Bitable.antt =====
-- src/pipeline/bitable.rs: reads with retries, batched writes, and the check of the field names.
pub mod Actions
pub mod Chunks
pub mod Fields
pub mod Pages
pub mod Retry
pub mod Writes
use lark_utils_exp.Prelude.{
  ℕ, zero, suc, ◌+◌, ◌*◌, List, [], ◌∷◌, ◌++◌, map, Bool, true, false, Option, none, some, ok, err,
  panic, unfinished, any, Ordering, lt, eq, gt, is_nil, if◌then◌else◌, ◌==◌, ◌||◌, length, take,
  drop, get_elem?,
}
use lark_utils_exp.Text.{Text, text, text_compare, trim, join, non_empty}
use lark_utils_exp.Text.Decimal.{decimal}
use lark_utils_exp.Json.{Value, Map, as_object, as_str, as_bool, as_array}
use lark_utils_exp.Json.Map.{get}
use lark_utils_exp.Host.{Host}
use lark_utils_exp.Error.{Error, message, Fallible}
use lark_utils_exp.Error.Display.{contains_text, chain}
use lark_utils_exp.Sync.Rules.{contains}
use lark_utils_exp.Sync.Rows.{BitableRecord}
use lark_utils_exp.Sync.Plan.{CreateRecordItem, UpdateRecordItem}

abbrev pub batch_size : ℕ
batch_size = 1000

abbrev pub max_retries : ℕ
max_retries = 3

-- `records.chunks(size)` of a list no longer than the fuel
unfoldable pub chunks_from : {A : Type 0} → ℕ → ℕ → List A → List (List A)
chunks_from zero size xs = []
chunks_from (suc fuel) size [] = []
chunks_from (suc fuel) size (x ∷ xs) =
    take size (x ∷ xs) ∷ chunks_from fuel size (drop size (x ∷ xs))

unfoldable pub chunks : {A : Type 0} → ℕ → List A → List (List A)
unfolding chunks_from
chunks size xs = chunks_from (length xs) size xs

-- A `BTreeSet<String>`, in ascending order.
unfoldable pub set_insert : Text → List Text → List Text
set_insert k [] = k ∷ []
set_insert k (j ∷ js) = elim (text_compare k j) [
  | lt ↦ k ∷ (j ∷ js)
  | eq ↦ j ∷ js
  | gt ↦ j ∷ set_insert k js
]

unfoldable pub set_extend : List Text → List Text → List Text
unfolding set_insert
set_extend set [] = set
set_extend set (k ∷ ks) = set_extend (set_insert k set) ks

abbrev map_names : Option Map → List Text
map_names none = []
map_names (some m) = map (λ f. f.0) m

-- the names of the fields of all records, in order
unfoldable pub all_field_names : List Value → List Text
all_field_names [] = []
all_field_names (v ∷ vs) = map_names (as_object v) ++ all_field_names vs

-- fn collect_record_field_names
unfoldable pub collect_record_field_names : List Value → List Text
unfolding set_extend all_field_names
collect_record_field_names vs = set_extend [] (all_field_names vs)

-- fn missing_field_names
unfoldable pub missing_field_names : List Text → List Text → List Text
missing_field_names [] table = []
missing_field_names (k ∷ write) table =
    let rest = missing_field_names write table in if contains table k then rest else k ∷ rest

-- fn format_field_names
unfoldable pub format_field_names : List Text → Text
unfolding join
format_field_names names = join (text ", ") names

pub record BitableFieldPage : Type 0 where
  pub field_names : List Text
  pub has_more : Bool
  pub page_token : Option Text

-- the field's name of one item: a text that is not blank, trimmed
abbrev item_name : Value → Option Text
item_name item = elim (as_object item) [
  | none ↦ none
  | some m ↦ elim (get (text "field_name") m) [
    | none ↦ none
    | some v ↦ elim (as_str v) [ none ↦ none | some s ↦ non_empty (trim s) ]
  ]
]

unfoldable pub page_names : ℕ → List Text → List Value → Fallible (List Text)
unfolding set_insert
page_names n names [] = ok names
page_names n names (item ∷ items) = elim (item_name item) [
  | none ↦ err (message (text "飞书字段列表 items[" ++ (decimal n ++ text "].field_name 缺失或为空")))
  | some name ↦ page_names (suc n) (set_insert name names) items
]

abbrev member : Text → Value → Option Value
member k v = elim (as_object v) [ none ↦ none | some m ↦ get k m ]

abbrev flag : Option Value → Bool
flag none = false
flag (some v) = elim (as_bool v) [ none ↦ false | some b ↦ b ]

abbrev text_of : Option Value → Option Text
text_of none = none
text_of (some v) = as_str v

abbrev items_of : Option Value → Option (List Value)
items_of none = none
items_of (some v) = as_array v

-- fn parse_bitable_field_page
unfoldable pub parse_bitable_field_page : Value → Fallible BitableFieldPage
unfolding page_names
parse_bitable_field_page payload = elim (items_of (member (text "items") payload)) [
  | none ↦ err (message (text "飞书字段列表 data.items 缺失或不是数组"))
  | some items ↦ elim (page_names 0 [] items) [
    | ok names ↦ ok (record {
      field_names = names;
      has_more = flag (member (text "has_more") payload);
      page_token = text_of (member (text "page_token") payload);
    })
    | err e ↦ err e
    | panic ↦ panic
    | unfinished ↦ unfinished
  ]
]

-- fn is_missing_response_data_error
unfoldable pub is_missing_response_data_error : Host → Error → Bool
is_missing_response_data_error h e =
    any (λ m. contains_text (text "response.data") m || contains_text (text "服务器没有返回有效的数据") m)
      (chain h e)
