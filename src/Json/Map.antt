-- ===== src/Json/Map.antt =====
-- serde_json's `Map`: an association list, its keys in ascending order.
use lark_utils_exp.Prelude.{
  [], ◌∷◌, Option, none, some, lt, eq, gt, if◌then◌else◌, ◌≡◌, ◌≢◌, refl, arith,
}
use lark_utils_exp.Text.{Text, text_eq, text_compare}
use lark_utils_exp.Text.Order.{text_eq_iff, eq_of_text_compare, text_compare_of_eq}
use lark_utils_exp.Json.{Value, Map, fields, of_fields, as_str}

-- `Map::get`
unfoldable pub get : Text → Map → Option Value
get k [] = none
get k ((j, v) ∷ m) = if text_eq j k then some v else get k m

-- `Map::insert`: replaces the value of a key that is there.
unfoldable pub insert : Text → Value → Map → Map
insert k v [] = (k, v) ∷ []
insert k v ((j, w) ∷ m) = elim (text_compare k j) [
  | lt ↦ (k, v) ∷ ((j, w) ∷ m)
  | eq ↦ (k, v) ∷ m
  | gt ↦ (j, w) ∷ insert k v m
]

-- `Map::extend`
unfoldable pub extend : Map → Map → Map
unfolding insert
extend m [] = m
extend m ((k, v) ∷ more) = extend (insert k v m) more

-- `.get(key).and_then(Value::as_str)`
abbrev pub get_str : Text → Map → Option Text
get_str k m = elim (get k m) [ none ↦ none | some v ↦ as_str v ]

-- A written key reads as the new value, and every other key as before.
pub get-insert :
    (k j : Text) (v : Value) (m : Map)
    → get j (insert k v m) ≡ (if text_eq k j then some v else get j m)
unfolding get insert
get-insert k j v [] = refl
get-insert k j v ((i, w) ∷ m) = ground (
  arith,
  get-insert k j v m,
  eq_of_text_compare k i,
  text_compare_of_eq k i,
  text_eq_iff k j,
  text_eq_iff i j,
)

pub insert-ne-nil : (k : Text) (v : Value) (m : Map) → insert k v m ≢ []
unfolding insert
insert-ne-nil k v [] e = cc
insert-ne-nil k v ((i, w) ∷ m) e = ground arith

pub fields-of_fields : (m : Map) → fields (of_fields m) ≡ m
fields-of_fields [] = refl
fields-of_fields ((k, v) ∷ m) = rw (fields-of_fields m)
