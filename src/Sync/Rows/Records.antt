-- ===== src/Sync/Rows/Records.antt =====
-- `parse_bitable_records_as_source_rows` of src/pipeline/sync.rs.
use lark_utils_exp.Prelude.{
  List, [], ◌∷◌, Option, none, some, ok, Option-cases, inl, inr, ◌≡◌, ◌↔◌, refl, cons-eq-ok,
}
use lark_utils_exp.Text.{Text}
use lark_utils_exp.Json.{Map, as_object}
use lark_utils_exp.Host.{Host}
use lark_utils_exp.Sync.Rules.{FieldValueRules}
use lark_utils_exp.Sync.Rows.{
  SourceRow, BitableRecord, lookup, key_of, record_fields, source_rows_from,
  parse_bitable_records_as_source_rows,
}
use lark_utils_exp.Sync.Rows.Keys.{Distinct, keys, AreNew, AreNew-nil, AreNew-cons}

module _ (h : Host) (rules : FieldValueRules) (key_field : Text) where
  -- The source row that a record stands for: none, if its fields are no object or have no key.
  abbrev row_of_map : Map → Option SourceRow
  row_of_map raw =
      let m = record_fields h rules raw [] in
      elim (key_of h key_field m) [
        | none ↦ none
        | some key ↦ some (record { unique_key = key; fields = m })
      ]

  abbrev pub row_of : BitableRecord → Option SourceRow
  row_of r = elim (as_object r.fields) [ none ↦ none | some raw ↦ row_of_map raw ]

  unfoldable pub rows_of : List BitableRecord → List SourceRow
  rows_of [] = []
  rows_of (r ∷ records) = elim (row_of r) [
    | none ↦ rows_of records
    | some row ↦ row ∷ rows_of records
  ]

  abbrev IsRead : List (Text × Text) → List BitableRecord → List SourceRow → Type 0
  IsRead seen records out =
      AreNew seen (keys (rows_of records))
      × Distinct (keys (rows_of records))
      × (rows_of records ≡ out)

  source_rows_from_sound :
      (seen : List (Text × Text)) (records : List BitableRecord) (out : List SourceRow)
      → source_rows_from h rules key_field seen records ≡ ok out
      → IsRead seen records out
  unfolding source_rows_from rows_of
  source_rows_from_sound seen [] out e = (tt, tt, cc)
  source_rows_from_sound seen (r ∷ records) out e = elim (Option-cases (as_object r.fields)) [
    | inl o ↦
        rw (o, rows_of) (source_rows_from_sound seen records out (rw (o, source_rows_from) at e))
    | inr (raw, o) ↦ elim (Option-cases (key_of h key_field (record_fields h rules raw []))) [
      | inl k ↦
          rw (o, k, rows_of)
            (source_rows_from_sound seen records out (rw (o, k, source_rows_from) at e))
      | inr (key, k) ↦ elim (Option-cases (lookup key seen)) [
        | inr (first, l) ↦ absurd (let q = rw (o, k, l, source_rows_from) at e in cc)
        | inl l ↦
            let row : SourceRow = record {
              unique_key = key;
              fields = record_fields h rules raw [];
            } in
            let (later, read, p) =
              cons-eq-ok row
                (source_rows_from h rules key_field ((key, r.record_id) ∷ seen) records)
                (rw (o, k, l, source_rows_from) at e) in
            let (new, d, same) =
              source_rows_from_sound ((key, r.record_id) ∷ seen) records later read in
            let (fresh, older) =
              (AreNew-cons key r.record_id seen (keys (rows_of records))).0 new in
            rw (o, k, rows_of) ((l, older), (fresh, d), rw same p)
      ]
    ]
  ]

  source_rows_from_complete :
      (seen : List (Text × Text)) (records : List BitableRecord)
      → AreNew seen (keys (rows_of records))
      → Distinct (keys (rows_of records))
      → source_rows_from h rules key_field seen records ≡ ok (rows_of records)
  unfolding source_rows_from rows_of
  source_rows_from_complete seen [] new d = refl
  source_rows_from_complete seen (r ∷ records) new d = elim (Option-cases (as_object r.fields)) [
    | inl o ↦
        rw (o, source_rows_from, rows_of)
          (source_rows_from_complete seen records (rw (o, rows_of) at new) (rw (o, rows_of) at d))
    | inr (raw, o) ↦ elim (Option-cases (key_of h key_field (record_fields h rules raw []))) [
      | inl k ↦
          rw (o, k, source_rows_from, rows_of)
            (source_rows_from_complete seen records (rw (o, k, rows_of) at new)
              (rw (o, k, rows_of) at d))
      | inr (key, k) ↦
          let (l, older) = rw (o, k, rows_of) at new in
          let (fresh, d') = rw (o, k, rows_of) at d in
          let later =
            source_rows_from_complete ((key, r.record_id) ∷ seen) records
              ((AreNew-cons key r.record_id seen (keys (rows_of records))).1 (fresh, older)) d' in
          rw (o, k, l, source_rows_from, rows_of) (rw later)
    ]
  ]

-- The manual records are accepted exactly when no two of those that have a unique key share it;
-- the result is a row for each record that has a key, in order.
pub parse_bitable_records_iff :
    (h : Host) (rules : FieldValueRules) (key_field : Text) (records : List BitableRecord)
    (out : List SourceRow)
    → (parse_bitable_records_as_source_rows h rules key_field records ≡ ok out) ↔ (
        Distinct (keys (rows_of h rules key_field records))
        × (rows_of h rules key_field records ≡ out))
unfolding parse_bitable_records_as_source_rows
parse_bitable_records_iff h rules key_field records out = (
  (λ e.
      let (new, d, same) = source_rows_from_sound h rules key_field [] records out e in (d, same)),
  λ (d, same). rw (← same) (
      source_rows_from_complete h rules key_field [] records
        (AreNew-nil Text (keys (rows_of h rules key_field records))) d),
)
