-- ===== src/Sync/Rows/Keys.antt =====
-- The unique keys of rows, and the row loop of `parse_sheet_rows` (src/pipeline/sync.rs).
use lark_utils_exp.Prelude.{
  ℕ, suc, List, [], ◌∷◌, true, false, Option, none, some, ok, cons-eq-ok, map, All, Bool-cases,
  Option-cases, inl, inr, ◌≡◌, subst, ◌↔◌, refl, arith,
}
use lark_utils_exp.Text.{Text}
use lark_utils_exp.Text.Order.{text_eq_iff}
use lark_utils_exp.Json.{Value, Map}
use lark_utils_exp.Host.{Host}
use lark_utils_exp.Sync.Rules.{FieldValueRules, contains}
use lark_utils_exp.Sync.Rows.{SourceRow, lookup, is_empty_row, key_of, row_fields, sheet_rows_from}

abbrev pub Distinct : List Text → Type 0
Distinct [] = Unit
Distinct (k ∷ ks) = (contains ks k ≡ false) × Distinct ks

abbrev pub keys : List SourceRow → List Text
keys = map (λ row. row.unique_key)

-- No key of the list is in the map.
abbrev pub AreNew : {V : Type 0} → List (Text × V) → List Text → Type 0
AreNew seen = All (λ k. lookup k seen ≡ none)

pub AreNew-nil : (V : Type 0) (ks : List Text) → AreNew {V = V} [] ks
unfolding lookup
AreNew-nil V [] = tt
AreNew-nil V (k ∷ ks) = (refl, AreNew-nil V ks)

pub AreNew-cons :
    {V : Type 0} (k : Text) (v : V) (seen : List (Text × V)) (ks : List Text)
    → AreNew ((k, v) ∷ seen) ks ↔ ((contains ks k ≡ false) × AreNew seen ks)
unfolding lookup contains
AreNew-cons k v seen [] = (λ _. (refl, tt), λ _. tt)
AreNew-cons k v seen (j ∷ js) =
    ground (arith, text_eq_iff k j, text_eq_iff j k, AreNew-cons k v seen js)

-- The rows that a sheet's rows stand for: a blank row stands for none.
module _ (h : Host) (rules : FieldValueRules) (key_field : Text) (headers : List Text) where
  abbrev pub row_map : List Value → Map
  row_map row = row_fields h rules row 0 headers []

  abbrev pub row_key : List Value → Option Text
  row_key row = key_of h key_field (row_map row)

  pub data SheetRows : List (List Value) → List SourceRow → Type 0 where
    done : SheetRows [] []
    blank :
        {row : List Value} {rows : List (List Value)} {out : List SourceRow}
        → is_empty_row row ≡ true
        → SheetRows rows out
        → SheetRows (row ∷ rows) out
    kept :
        {row : List Value} {rows : List (List Value)} {out : List SourceRow} {key : Text}
        → is_empty_row row ≡ false
        → row_key row ≡ some key
        → SheetRows rows out
        → SheetRows (row ∷ rows) (record { unique_key = key; fields = row_map row } ∷ out)

  abbrev Parsed : List (Text × ℕ) → List (List Value) → List SourceRow → Type 0
  Parsed seen rows out = SheetRows rows out × AreNew seen (keys out) × Distinct (keys out)

  Parsed-kept :
      (n : ℕ) (seen : List (Text × ℕ)) (row : List Value) (rows : List (List Value))
      (out : List SourceRow) (key : Text)
      → is_empty_row row ≡ false
      → row_key row ≡ some key
      → lookup key seen ≡ none
      → Parsed ((key, n) ∷ seen) rows out
      → Parsed seen (row ∷ rows) (record { unique_key = key; fields = row_map row } ∷ out)
  Parsed-kept n seen row rows out key e k l (s, new, d) =
      let (fresh, older) = (AreNew-cons key n seen (keys out)).0 new in
      (kept e k s, (l, older), (fresh, d))

  sheet_rows_from_sound :
      (n : ℕ) (seen : List (Text × ℕ)) (rows : List (List Value)) (out : List SourceRow)
      → sheet_rows_from h rules key_field headers n seen rows ≡ ok out
      → Parsed seen rows out
  unfolding sheet_rows_from
  sheet_rows_from_sound n seen [] out e =
      let p : [] ≡ out = cc in subst (Parsed seen []) p (done, tt, tt)
  sheet_rows_from_sound n seen (row ∷ rows) out e = elim (Bool-cases (is_empty_row row)) [
    | inl b ↦
        let (s, new, d) =
          sheet_rows_from_sound (suc n) seen rows out (rw (b, sheet_rows_from) at e) in
        (blank b s, new, d)
    | inr b ↦ elim (Option-cases (row_key row)) [
      | inl k ↦ absurd (let q = rw (b, k, sheet_rows_from) at e in cc)
      | inr (key, k) ↦ elim (Option-cases (lookup key seen)) [
        | inr (first, l) ↦ absurd (let q = rw (b, k, l, sheet_rows_from) at e in cc)
        | inl l ↦
            let r : SourceRow = record { unique_key = key; fields = row_map row } in
            let (later, parsed, p) =
              cons-eq-ok r
                (sheet_rows_from h rules key_field headers (suc n) ((key, n) ∷ seen) rows)
                (rw (b, k, l, sheet_rows_from) at e) in
            subst (Parsed seen (row ∷ rows)) p (
              Parsed-kept n seen row rows later key b k l
                (sheet_rows_from_sound (suc n) ((key, n) ∷ seen) rows later parsed))
      ]
    ]
  ]

  sheet_rows_from_complete :
      (n : ℕ) (seen : List (Text × ℕ)) {rows : List (List Value)} {out : List SourceRow}
      → SheetRows rows out
      → AreNew seen (keys out)
      → Distinct (keys out)
      → sheet_rows_from h rules key_field headers n seen rows ≡ ok out
  unfolding sheet_rows_from
  sheet_rows_from_complete n seen done new d = refl
  sheet_rows_from_complete n seen (blank {rows = rows} b s) new d =
      rw (b, sheet_rows_from) (sheet_rows_from_complete (suc n) seen s new d)
  sheet_rows_from_complete n seen (kept {rows = rows} {out = out} {key = key} b k s) (l, new)
        (fresh, d) =
      rw (b, k, l, sheet_rows_from)
        (rw (
          sheet_rows_from_complete (suc n) ((key, n) ∷ seen) s
            ((AreNew-cons key n seen (keys out)).1 (fresh, new)) d))

-- `parse_sheet_rows` behind its header tests: it returns the rows of the sheet that are not blank,
-- in order, exactly when each of them has a unique key and no two keys are the same.
pub sheet_rows_from_iff :
    (h : Host) (rules : FieldValueRules) (key_field : Text) (headers : List Text) (n : ℕ)
    (rows : List (List Value)) (out : List SourceRow)
    → (sheet_rows_from h rules key_field headers n [] rows ≡ ok out)
      ↔ (SheetRows h rules key_field headers rows out × Distinct (keys out))
sheet_rows_from_iff h rules key_field headers n rows out = (
  (λ e.
      let (s, new, d) = sheet_rows_from_sound h rules key_field headers n [] rows out e in (s, d)),
  λ (s, d). sheet_rows_from_complete h rules key_field headers n [] s (AreNew-nil ℕ (keys out)) d,
)
