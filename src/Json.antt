-- ===== src/Json.antt =====
-- serde_json's `Value`. Its `Map` keeps the keys sorted (the crate's `preserve_order` is off).
pub mod Map
pub mod Equality
use lark_utils_exp.Prelude.{
  ℕ, ◌-◌, ◌/◌, ◌%◌, ◌^◌, ℤ, List, [], ◌∷◌, ◌++◌, Bool, true, false, not, ◌&&◌, ◌||◌, Option, none,
  some, ◌==◌, if◌then◌else◌, pos, negsuc,
}
use lark_utils_exp.Text.{Text, text_eq}

-- `Number`: an integer, or the bits of a finite `f64`.
pub data Number : Type 0 where
  int : ℤ → Number
  float : ℕ → Number

mutual
  pub data Value : Type 0 where
    null : Value
    bool : Bool → Value
    number : Number → Value
    string : Text → Value
    array : Items → Value
    object : Fields → Value

  pub data Items : Type 0 where
    nil : Items
    cons : Value → Items → Items

  pub data Fields : Type 0 where
    end : Fields
    field : Text → Value → Fields → Fields

abbrev pub Map : Type 0
Map = List (Text × Value)

abbrev pub items : Items → List Value
items nil = []
items (cons v vs) = v ∷ items vs

abbrev pub fields : Fields → Map
fields end = []
fields (field k v fs) = (k, v) ∷ fields fs

abbrev pub of_items : List Value → Items
of_items [] = nil
of_items (v ∷ vs) = cons v (of_items vs)

abbrev pub of_fields : Map → Fields
of_fields [] = end
of_fields ((k, v) ∷ m) = field k v (of_fields m)

unfoldable pub int_eq : ℤ → ℤ → Bool
int_eq (pos m) (pos n) = m == n
int_eq (negsuc m) (negsuc n) = m == n
int_eq _ _ = false

-- The bits of 0.0 or -0.0, which compare as equal; a `Number` is never a NaN.
unfoldable pub is_zero_float : ℕ → Bool
is_zero_float b = (b % 2 ^ 63) == 0

-- `Number::from_f64` refuses infinities and NaN, whose exponent bits are all set.
unfoldable pub is_finite_float : ℕ → Bool
is_finite_float b = not (((b / 2 ^ 52) % 2048) == 2047)

unfoldable pub number_eq : Number → Number → Bool
unfolding int_eq is_zero_float
number_eq (int a) (int b) = int_eq a b
number_eq (float a) (float b) = (a == b) || (is_zero_float a && is_zero_float b)
number_eq _ _ = false

abbrev pub bool_eq : Bool → Bool → Bool
bool_eq true b = b
bool_eq false b = not b

-- `PartialEq for Value`
unfoldable mutual
  pub value_eq : Value → Value → Bool
  value_eq null null = true
  value_eq (bool a) (bool b) = bool_eq a b
  value_eq (number a) (number b) = number_eq a b
  value_eq (string a) (string b) = text_eq a b
  value_eq (array a) (array b) = items_eq a b
  value_eq (object a) (object b) = fields_eq a b
  value_eq _ _ = false

  pub items_eq : Items → Items → Bool
  items_eq nil nil = true
  items_eq (cons v vs) (cons w ws) = value_eq v w && items_eq vs ws
  items_eq _ _ = false

  pub fields_eq : Fields → Fields → Bool
  fields_eq end end = true
  fields_eq (field j v fs) (field k w gs) = text_eq j k && (value_eq v w && fields_eq fs gs)
  fields_eq _ _ = false

abbrev pub is_null : Value → Bool
is_null null = true
is_null _ = false

abbrev pub as_str : Value → Option Text
as_str (string s) = some s
as_str _ = none

abbrev pub as_object : Value → Option Map
as_object (object fs) = some (fields fs)
as_object _ = none

abbrev pub as_array : Value → Option (List Value)
as_array (array vs) = some (items vs)
as_array _ = none

abbrev pub as_bool : Value → Option Bool
as_bool (bool b) = some b
as_bool _ = none
