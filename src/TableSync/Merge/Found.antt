-- ===== src/TableSync/Merge/Found.antt =====
-- The row under a key of a merge by keys.
use lark_utils_exp.Prelude.{
  List, [], ◌∷◌, ◌++◌, Bool, true, false, Option, none, some, if◌then◌else◌, ◌≡◌, refl, arith,
  Bool-cases, inl, inr,
}
use lark_utils_exp.Text.{Text, text_eq}
use lark_utils_exp.Text.Order.{text_eq_iff, text_eq_refl}
use lark_utils_exp.Sync.Rules.{contains}
use lark_utils_exp.Sync.Rows.{SourceRow}
use lark_utils_exp.Sync.Rows.Keys.{Distinct, keys}
use lark_utils_exp.TableSync.Merge.Places.{replace_row, add_row, add_rows}

-- The first row with a key.
unfoldable pub find_row : Text → List SourceRow → Option SourceRow
find_row k [] = none
find_row k (row ∷ rows) = if text_eq row.unique_key k then some row else find_row k rows

abbrev pub or_else : Option SourceRow → Option SourceRow → Option SourceRow
or_else none o = o
or_else (some r) o = some r

find_row-absent :
    (k : Text) (rows : List SourceRow) → contains (keys rows) k ≡ false → find_row k rows ≡ none
unfolding find_row contains
find_row-absent k [] e = refl
find_row-absent k (r ∷ rows) e = ground (arith, find_row-absent k rows)

find_row-append :
    (k : Text) (rows : List SourceRow) (row : SourceRow)
    → find_row k (rows ++ row ∷ [])
      ≡ or_else (find_row k rows) (if text_eq row.unique_key k then some row else none)
unfolding find_row
find_row-append k [] row = refl
find_row-append k (r ∷ rows) row = ground (arith, find_row-append k rows row)

find_row-replace_row :
    (k : Text) (row : SourceRow) (rows : List SourceRow)
    → contains (keys rows) row.unique_key ≡ true
    → find_row k (replace_row row rows)
      ≡ (if text_eq row.unique_key k then some row else find_row k rows)
unfolding find_row replace_row contains
find_row-replace_row k row [] e = cc
find_row-replace_row k row (r ∷ rows) e = ground (
  arith,
  find_row-replace_row k row rows,
  text_eq_iff r.unique_key row.unique_key,
  text_eq_iff row.unique_key k,
  text_eq_iff r.unique_key k,
  text_eq_refl k,
)

find_row-present :
    (k : Text) (rows : List SourceRow)
    → contains (keys rows) k ≡ true
    → (r : SourceRow) × (find_row k rows ≡ some r)
unfolding find_row contains
find_row-present k [] e = cc
find_row-present k (r ∷ rows) e = elim (Bool-cases (text_eq r.unique_key k)) [
  | inl t ↦ (r, rw t)
  | inr f ↦ let (s, p) = find_row-present k rows (rw f at e) in (s, rw f p)
]

-- One manual row, where it may override and where it may not.
find_row-add_row :
    (k : Text) (overrides : Bool) (rows : List SourceRow) (row : SourceRow)
    → find_row k (add_row overrides rows row) ≡ (
        if overrides
        then (if text_eq row.unique_key k then some row else find_row k rows)
        else or_else (find_row k rows) (if text_eq row.unique_key k then some row else none))
unfolding add_row
find_row-add_row k true rows row = elim (Bool-cases (contains (keys rows) row.unique_key)) [
  | inl old ↦ rw old (find_row-replace_row k row rows old)
  | inr new ↦ rw new (
      ground (
        arith,
        find_row-append k rows row,
        text_eq_iff row.unique_key k,
        find_row-absent row.unique_key rows new,
        find_row-absent k rows,
      ))
]
find_row-add_row k false rows row = elim (Bool-cases (contains (keys rows) row.unique_key)) [
  | inl old ↦
      let (r, found) = find_row-present row.unique_key rows old in
      rw old (ground (arith, found, text_eq_iff row.unique_key k))
  | inr new ↦ rw new (find_row-append k rows row)
]

pub find_row-add_rows_kept :
    (k : Text) (rows more : List SourceRow)
    → find_row k (add_rows false rows more) ≡ or_else (find_row k rows) (find_row k more)
unfolding add_rows find_row
find_row-add_rows_kept k rows [] = ground arith
find_row-add_rows_kept k rows (row ∷ more) = ground (
  arith,
  find_row-add_rows_kept k (add_row false rows row) more,
  find_row-add_row k false rows row,
)

pub find_row-add_rows_overridden :
    (k : Text) (rows more : List SourceRow)
    → Distinct (keys more)
    → find_row k (add_rows true rows more) ≡ or_else (find_row k more) (find_row k rows)
unfolding add_rows find_row
find_row-add_rows_overridden k rows [] d = refl
find_row-add_rows_overridden k rows (row ∷ more) (fresh, d) = ground (
  arith,
  find_row-add_rows_overridden k (add_row true rows row) more d,
  find_row-add_row k true rows row,
  find_row-absent row.unique_key more fresh,
  text_eq_iff row.unique_key k,
)
