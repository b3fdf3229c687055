-- ===== src/Json/Equality.antt =====
-- The equality of JSON values.
use lark_utils_exp.Prelude.{◌≡◌, refl, Bool, true, arith, ◌&&◌, pos, negsuc}
use lark_utils_exp.Text.{Text, text_eq}
use lark_utils_exp.Text.Order.{text_eq_iff, text_eq_refl}
use lark_utils_exp.Json.{
  Number, int, float, number_eq, Value, null, bool, number, string, array, object, Items, nil, cons,
  Fields, end, field, value_eq, items_eq, fields_eq,
}

and_parts : (a b : Bool) → (a && b) ≡ true → (a ≡ true) × (b ≡ true)
and_parts a b h = ground arith

and_both : {a b : Bool} → a ≡ true → b ≡ true → (a && b) ≡ true
and_both h k = ground arith

text_sym : (s t : Text) → text_eq s t ≡ true → text_eq t s ≡ true
text_sym s t h = ground (arith, text_eq_iff s t, text_eq_refl s)

text_trans : (r s t : Text) → text_eq r s ≡ true → text_eq s t ≡ true → text_eq r t ≡ true
text_trans r s t h k = ground (arith, text_eq_iff r s)

number_eq_refl : (n : Number) → number_eq n n ≡ true
unfolding number_eq
number_eq_refl (int (pos n)) = ground arith
number_eq_refl (int (negsuc n)) = ground arith
number_eq_refl (float b) = ground arith

number_eq_sym : (m n : Number) → number_eq m n ≡ true → number_eq n m ≡ true
unfolding number_eq
number_eq_sym (int (pos m)) (int (pos n)) h = ground arith
number_eq_sym (int (negsuc m)) (int (negsuc n)) h = ground arith
number_eq_sym (float a) (float b) h = ground arith
number_eq_sym m n h = ground arith

number_eq_trans :
    (l m n : Number) → number_eq l m ≡ true → number_eq m n ≡ true → number_eq l n ≡ true
unfolding number_eq
number_eq_trans l m n h k = ground arith

mutual
  unfolding value_eq

  value_refl : (v : Value) → value_eq v v ≡ true
  value_refl null = refl
  value_refl (bool b) = ground arith
  value_refl (number n) = number_eq_refl n
  value_refl (string s) = text_eq_refl s
  value_refl (array vs) = items_refl vs
  value_refl (object fs) = fields_refl fs

  items_refl : (vs : Items) → items_eq vs vs ≡ true
  items_refl nil = refl
  items_refl (cons v vs) = ground (arith, value_refl v, items_refl vs)

  fields_refl : (fs : Fields) → fields_eq fs fs ≡ true
  fields_refl end = refl
  fields_refl (field k v fs) = ground (arith, text_eq_refl k, value_refl v, fields_refl fs)

mutual
  unfolding value_eq

  value_sym : (v w : Value) → value_eq v w ≡ true → value_eq w v ≡ true
  value_sym null w h = ground arith
  value_sym (bool b) w h = ground arith
  value_sym (number n) (number m) h = number_eq_sym n m h
  value_sym (string s) (string t) h = text_sym s t h
  value_sym (array vs) (array ws) h = items_sym vs ws h
  value_sym (object fs) (object gs) h = fields_sym fs gs h
  value_sym v w h = cc

  items_sym : (vs ws : Items) → items_eq vs ws ≡ true → items_eq ws vs ≡ true
  items_sym nil ws h = ground arith
  items_sym (cons v vs) (cons w ws) h =
      let (a, b) = and_parts _ _ h in and_both (value_sym v w a) (items_sym vs ws b)
  items_sym (cons v vs) nil h = cc

  fields_sym : (fs gs : Fields) → fields_eq fs gs ≡ true → fields_eq gs fs ≡ true
  fields_sym end gs h = ground arith
  fields_sym (field j v fs) (field k w gs) h =
      let (a, bc) = and_parts _ _ h in
      let (b, c) = and_parts _ _ bc in
      and_both (text_sym j k a) (and_both (value_sym v w b) (fields_sym fs gs c))
  fields_sym (field j v fs) end h = cc

mutual
  unfolding value_eq

  value_trans : (u v w : Value) → value_eq u v ≡ true → value_eq v w ≡ true → value_eq u w ≡ true
  value_trans null v w h k = ground arith
  value_trans (bool b) v w h k = ground arith
  value_trans (number l) (number m) (number n) h k = number_eq_trans l m n h k
  value_trans (string s) (string t) (string r) h k = text_trans s t r h k
  value_trans (array us) (array vs) (array ws) h k = items_trans us vs ws h k
  value_trans (object es) (object fs) (object gs) h k = fields_trans es fs gs h k
  value_trans u v w h k = ground arith

  items_trans :
      (us vs ws : Items) → items_eq us vs ≡ true → items_eq vs ws ≡ true → items_eq us ws ≡ true
  items_trans nil vs ws h k = ground arith
  items_trans (cons u us) (cons v vs) (cons w ws) h k =
      let (a, b) = and_parts _ _ h in
      let (c, d) = and_parts _ _ k in and_both (value_trans u v w a c) (items_trans us vs ws b d)
  items_trans us vs ws h k = ground arith

  fields_trans :
      (es fs gs : Fields) → fields_eq es fs ≡ true → fields_eq fs gs ≡ true → fields_eq es gs ≡ true
  fields_trans end fs gs h k = ground arith
  fields_trans (field i u es) (field j v fs) (field l w gs) h k =
      let (a, bc) = and_parts _ _ h in
      let (b, c) = and_parts _ _ bc in
      let (a', bc') = and_parts _ _ k in
      let (b', c') = and_parts _ _ bc' in
      and_both (text_trans i j l a a')
        (and_both (value_trans u v w b b') (fields_trans es fs gs c c'))
  fields_trans es fs gs h k = ground arith

pub value_eq_refl : (v : Value) → value_eq v v ≡ true
value_eq_refl = value_refl

value_eq_sym : (v w : Value) → value_eq v w ≡ true → value_eq w v ≡ true
value_eq_sym = value_sym

pub value_eq_trans :
    (u v w : Value) → value_eq u v ≡ true → value_eq v w ≡ true → value_eq u w ≡ true
value_eq_trans = value_trans
