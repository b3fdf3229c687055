-- ===== src/TableSync/Merge/Places.antt =====
-- The places of keys in `merge_source_rows`, and a merge by keys without places.
use mathlib.Core.List.{append-nil, append_assoc}
use lark_utils_exp.Prelude.{
  ℕ, zero, suc, List, [], ◌∷◌, ◌++◌, Bool, true, false, ◌||◌, Option, none, some, length, set,
  if◌then◌else◌, ◌≡◌, refl, ap, sym, ◌∙◌, arith, Bool-cases, inl, inr, All,
}
use lark_utils_exp.Text.{Text, text_eq}
use lark_utils_exp.Text.Order.{text_eq_iff}
use lark_utils_exp.Sync.Rules.{contains}
use lark_utils_exp.Sync.Rows.{SourceRow, lookup}
use lark_utils_exp.Sync.Rows.Keys.{Distinct, keys}
use lark_utils_exp.TableSync.{
  Merging, push_row, merge_spreadsheet, merge_manual_row, merge_manual, merge_source_rows,
}

abbrev next : Option ℕ → Option ℕ
next none = none
next (some i) = some (suc i)

place_of : Text → List SourceRow → Option ℕ
place_of k [] = none
place_of k (row ∷ rows) = if text_eq row.unique_key k then some 0 else next (place_of k rows)

-- The merge without places: a row is replaced, dropped or appended by its key.
unfoldable pub replace_row : SourceRow → List SourceRow → List SourceRow
replace_row row [] = []
replace_row row (old ∷ rows) =
    let rest = replace_row row rows in
    if text_eq old.unique_key row.unique_key then row ∷ rows else old ∷ rest

unfoldable pub add_row : Bool → List SourceRow → SourceRow → List SourceRow
add_row overrides rows row =
    if contains (keys rows) row.unique_key
    then (if overrides then replace_row row rows else rows)
    else rows ++ row ∷ []

unfoldable pub add_rows : Bool → List SourceRow → List SourceRow → List SourceRow
add_rows overrides rows [] = rows
add_rows overrides rows (row ∷ more) = add_rows overrides (add_row overrides rows row) more

-- `key_to_index` gives the place of each key.
abbrev IsIndexed : Merging → Type 0
IsIndexed m = (k : Text) → lookup k m.key_to_index ≡ place_of k m.merged_rows

place_of-append :
    (k : Text) (rows : List SourceRow) (row : SourceRow)
    → place_of k (rows ++ row ∷ []) ≡ (
        if contains (keys rows) k
        then place_of k rows
        else if text_eq row.unique_key k
        then some (length rows)
        else none)
unfolding place_of contains
place_of-append k [] row = ground arith
place_of-append k (r ∷ rows) row = ground (arith, place_of-append k rows row)

place_of-none :
    (k : Text) (rows : List SourceRow) → contains (keys rows) k ≡ false → place_of k rows ≡ none
unfolding place_of contains
place_of-none k [] e = refl
place_of-none k (r ∷ rows) e = ground (arith, place_of-none k rows)

place_of-some :
    (k : Text) (rows : List SourceRow)
    → contains (keys rows) k ≡ true
    → (i : ℕ) × (place_of k rows ≡ some i)
unfolding place_of contains
place_of-some k [] e = cc
place_of-some k (r ∷ rows) e = elim (Bool-cases (text_eq r.unique_key k)) [
  | inl t ↦ (0, rw t)
  | inr f ↦ let (i, p) = place_of-some k rows (rw f at e) in (suc i, rw (f, p))
]

set-place_of :
    (row : SourceRow) (rows : List SourceRow) (i : ℕ)
    → place_of row.unique_key rows ≡ some i
    → set rows i row ≡ replace_row row rows
unfolding place_of replace_row
set-place_of row [] i e = cc
set-place_of row (r ∷ rows) zero e = ground (arith)
set-place_of row (r ∷ rows) (suc i) e = ground (arith, set-place_of row rows i)

place_of-replace_row :
    (k : Text) (row : SourceRow) (rows : List SourceRow)
    → place_of k (replace_row row rows) ≡ place_of k rows
unfolding place_of replace_row
place_of-replace_row k row [] = refl
place_of-replace_row k row (r ∷ rows) = ground (
  arith,
  place_of-replace_row k row rows,
  text_eq_iff r.unique_key row.unique_key,
  text_eq_iff row.unique_key k,
)

push_row-IsIndexed :
    (m : Merging) (row : SourceRow)
    → contains (keys m.merged_rows) row.unique_key ≡ false
    → IsIndexed m
    → IsIndexed (push_row m row)
unfolding push_row lookup
push_row-IsIndexed m row new h k = ground (
  arith,
  h k,
  place_of-append k m.merged_rows row,
  place_of-none k m.merged_rows,
  text_eq_iff row.unique_key k,
)

merge_manual_row-IsIndexed :
    (overrides : Bool) (m : Merging) (row : SourceRow)
    → IsIndexed m
    → IsIndexed (merge_manual_row overrides m row)
      × ((merge_manual_row overrides m row).merged_rows ≡ add_row overrides m.merged_rows row)
unfolding merge_manual_row add_row
merge_manual_row-IsIndexed overrides m row h =
    elim (Bool-cases (contains (keys m.merged_rows) row.unique_key)) [
      | inr new ↦
          let absent = h row.unique_key ∙ place_of-none row.unique_key m.merged_rows new in
          rw (absent, merge_manual_row, new)
            (push_row-IsIndexed m row new h, unfold push_row in refl)
      | inl old ↦
          let (i, found) = place_of-some row.unique_key m.merged_rows old in
          rw (h row.unique_key ∙ found, merge_manual_row, old)
            (replaced overrides i (set-place_of row m.merged_rows i found))
    ]
  where
    replaced :
        (b : Bool) (i : ℕ)
        → set m.merged_rows i row ≡ replace_row row m.merged_rows
        → IsIndexed (if b then record m { merged_rows = set m.merged_rows i row } else m)
          × ((if b then record m { merged_rows = set m.merged_rows i row } else m).merged_rows
              ≡ (if b then replace_row row m.merged_rows else m.merged_rows))
    replaced false i e = (h, refl)
    replaced true i e =
        ((λ k. h k ∙ sym (ap (place_of k) e ∙ place_of-replace_row k row m.merged_rows)), e)

merge_manual-eq :
    (overrides : Bool) (m : Merging) (rows : List SourceRow)
    → IsIndexed m
    → (merge_manual overrides m rows).merged_rows ≡ add_rows overrides m.merged_rows rows
unfolding merge_manual add_rows
merge_manual-eq overrides m [] h = refl
merge_manual-eq overrides m (row ∷ rows) h =
    let (h', e) = merge_manual_row-IsIndexed overrides m row h in
    merge_manual-eq overrides (merge_manual_row overrides m row) rows h'
    ∙ ap (λ merged. add_rows overrides merged rows) e

-- None of the keys is among the rows.
abbrev AreAbsent : List SourceRow → List Text → Type 0
AreAbsent rows = All (λ k. contains (keys rows) k ≡ false)

contains-keys-append :
    (k : Text) (rows : List SourceRow) (row : SourceRow)
    → contains (keys (rows ++ row ∷ [])) k ≡ (contains (keys rows) k || text_eq row.unique_key k)
unfolding contains
contains-keys-append k [] row = ground arith
contains-keys-append k (r ∷ rows) row = ground (arith, contains-keys-append k rows row)

AreAbsent-push :
    (rows : List SourceRow) (row : SourceRow) (ks : List Text)
    → AreAbsent rows ks
    → contains ks row.unique_key ≡ false
    → AreAbsent (rows ++ row ∷ []) ks
unfolding contains
AreAbsent-push rows row [] h e = tt
AreAbsent-push rows row (k ∷ ks) (new, h) e = (
  ground (
    arith,
    contains-keys-append k rows row,
    text_eq_iff row.unique_key k,
    text_eq_iff k row.unique_key,
  ),
  AreAbsent-push rows row ks h (ground arith),
)

merge_spreadsheet-IsIndexed :
    (m : Merging) (rows : List SourceRow)
    → IsIndexed m
    → Distinct (keys rows)
    → AreAbsent m.merged_rows (keys rows)
    → IsIndexed (merge_spreadsheet m rows)
      × ((merge_spreadsheet m rows).merged_rows ≡ m.merged_rows ++ rows)
unfolding merge_spreadsheet
merge_spreadsheet-IsIndexed m [] h d a = (h, sym (append-nil m.merged_rows))
merge_spreadsheet-IsIndexed m (row ∷ rows) h (fresh, d) (new, a) =
    let (h', e) =
      merge_spreadsheet-IsIndexed (push_row m row) rows (push_row-IsIndexed m row new h) d
        (unfold push_row in AreAbsent-push m.merged_rows row (keys rows) a fresh) in
    (h', e ∙ unfold push_row in append_assoc m.merged_rows (row ∷ []) rows)

AreAbsent-nil : (ks : List Text) → AreAbsent [] ks
unfolding contains
AreAbsent-nil [] = tt
AreAbsent-nil (k ∷ ks) = (refl, AreAbsent-nil ks)

pub merge_source_rows-eq :
    (spreadsheet manual : List SourceRow) (overrides : Bool)
    → Distinct (keys spreadsheet)
    → merge_source_rows spreadsheet manual overrides ≡ add_rows overrides spreadsheet manual
unfolding merge_source_rows
merge_source_rows-eq spreadsheet manual overrides d =
    let start : Merging = record { merged_rows = []; key_to_index = [] } in
    let (h, e) =
      merge_spreadsheet-IsIndexed start spreadsheet (unfold lookup place_of in λ k. refl) d
        (AreAbsent-nil (keys spreadsheet)) in
    merge_manual-eq overrides (merge_spreadsheet start spreadsheet) manual h
    ∙ ap (λ merged. add_rows overrides merged manual) e
