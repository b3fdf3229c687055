-- ===== src/TableSync/Merge/Keys.antt =====
-- The keys of a merge by keys.
use mathlib.Core.List.{append-nil, append_assoc}
use lark_utils_exp.Prelude.{
  List, [], ◌∷◌, ◌++◌, Bool, true, false, ◌||◌, if◌then◌else◌, ◌≡◌, refl, ap, sym, ◌∙◌, arith,
  Bool-cases, inl, inr,
}
use lark_utils_exp.Text.{Text, text_eq}
use lark_utils_exp.Text.Order.{text_eq_iff}
use lark_utils_exp.Sync.Rules.{contains}
use lark_utils_exp.Sync.Rows.{SourceRow}
use lark_utils_exp.Sync.Rows.Keys.{Distinct, keys}
use lark_utils_exp.TableSync.Merge.Places.{replace_row, add_row, add_rows}

keys-replace_row :
    (row : SourceRow) (rows : List SourceRow) → keys (replace_row row rows) ≡ keys rows
unfolding replace_row
keys-replace_row row [] = refl
keys-replace_row row (r ∷ rows) =
    ground (arith, keys-replace_row row rows, text_eq_iff r.unique_key row.unique_key)

keys-append :
    (rows : List SourceRow) (row : SourceRow)
    → keys (rows ++ row ∷ []) ≡ keys rows ++ row.unique_key ∷ []
keys-append [] row = refl
keys-append (r ∷ rows) row = ap (λ ks. r.unique_key ∷ ks) (keys-append rows row)

keys-add_row :
    (overrides : Bool) (rows : List SourceRow) (row : SourceRow)
    → keys (add_row overrides rows row) ≡ (
        if contains (keys rows) row.unique_key then keys rows else keys rows ++ row.unique_key ∷ [])
unfolding add_row
keys-add_row overrides rows row = ground (arith, keys-replace_row row rows, keys-append rows row)

-- The keys of a list that another does not have, each once.
unfoldable pub new_keys : List Text → List Text → List Text
new_keys known [] = []
new_keys known (k ∷ ks) = elim (contains known k) [
  | true ↦ new_keys known ks
  | false ↦ k ∷ new_keys (known ++ k ∷ []) ks
]

-- One more row adds its key, if it is new.
new_keys-cons :
    (known ks : List Text) (k : Text)
    → (if contains known k then known else known ++ k ∷ [])
        ++ new_keys (if contains known k then known else known ++ k ∷ []) ks
      ≡ known ++ new_keys known (k ∷ ks)
unfolding new_keys
new_keys-cons known ks k = elim (Bool-cases (contains known k)) [
  | inl old ↦ rw (old, new_keys)
  | inr new ↦ rw (new, new_keys) (append_assoc known (k ∷ []) (new_keys (known ++ k ∷ []) ks))
]

pub keys-add_rows :
    (overrides : Bool) (rows more : List SourceRow)
    → keys (add_rows overrides rows more) ≡ keys rows ++ new_keys (keys rows) (keys more)
unfolding add_rows
keys-add_rows overrides rows [] = unfold new_keys in sym (append-nil (keys rows))
keys-add_rows overrides rows (row ∷ more) =
    keys-add_rows overrides (add_row overrides rows row) more
    ∙ ap (λ ks. ks ++ new_keys ks (keys more)) (keys-add_row overrides rows row)
    ∙ new_keys-cons (keys rows) (keys more) row.unique_key

contains-append_one :
    (ks : List Text) (k j : Text) → contains (ks ++ k ∷ []) j ≡ (contains ks j || text_eq k j)
unfolding contains
contains-append_one [] k j = ground arith
contains-append_one (i ∷ ks) k j = ground (arith, contains-append_one ks k j)

Distinct-append_one :
    (ks : List Text) (k : Text) → Distinct ks → contains ks k ≡ false → Distinct (ks ++ k ∷ [])
unfolding contains
Distinct-append_one [] k d e = (refl, tt)
Distinct-append_one (i ∷ ks) k (fresh, d) e = (
  ground (arith, contains-append_one ks k i, text_eq_iff i k, text_eq_iff k i),
  Distinct-append_one ks k d (ground arith),
)

pub Distinct-add_rows :
    (overrides : Bool) (rows more : List SourceRow)
    → Distinct (keys rows)
    → Distinct (keys (add_rows overrides rows more))
unfolding add_rows
Distinct-add_rows overrides rows [] d = d
Distinct-add_rows overrides rows (row ∷ more) d =
    Distinct-add_rows overrides (add_row overrides rows row) more (
      rw (keys-add_row overrides rows row)
        (elim (Bool-cases (contains (keys rows) row.unique_key)) [
          | inl old ↦ rw old d
          | inr new ↦ rw new (Distinct-append_one (keys rows) row.unique_key d new)
        ]))
