-- ===== src/TableSync/Audit.antt =====
-- `build_audit_sync_records` of src/pipeline/table_sync.rs.
use mathlib.Core.List.{Memᴰ}
use lark_utils_exp.Prelude.{
  List, [], ◌∷◌, Bool, true, false, ◌&&◌, not, none, some, All, Bool-cases, Option-cases, inl, inr,
  ◌⊎◌, ◌≡◌, refl,
}
use lark_utils_exp.Text.{Text}
use lark_utils_exp.Json.{string, object, Map, of_fields}
use lark_utils_exp.Json.Map.{insert, extend}
use lark_utils_exp.Host.{Host}
use lark_utils_exp.Sync.Rules.{FieldValueRules, to_bitable_write_value}
use lark_utils_exp.Sync.Rows.{ExistingRecordIndexItem, Index, lookup}
use lark_utils_exp.Sync.Plan.{CreateRecordItem, UpdateRecordItem}
use lark_utils_exp.TableSync.{
  ActivityTableSyncRuleConfig, AuditSourceRow, AuditPlan, is_manual_data_source,
  audit_result_is_approved, should_auto_approve, approved_audit_result_fields, audit_fields,
  audit_row, build_audit_sync_records,
}

module _ (h : Host) (key_field : Text) (rules : FieldValueRules)
    (rule : ActivityTableSyncRuleConfig) (index : Index) where
  -- The row is approved by itself: it comes from the manual table, and the rule approves such rows.
  abbrev pub IsSelfApproved : AuditSourceRow → Type 0
  IsSelfApproved row =
      (is_manual_data_source row.data_source rule.manual_source_value ≡ true)
      × (rule.manual_auto_approve ≡ true)

  abbrev pub key_fields : AuditSourceRow → Map
  key_fields row =
      insert key_field (to_bitable_write_value h rules key_field (string row.unique_key)) []

  -- The new record of a row: the key, and the approval exactly if the row is approved by itself.
  abbrev pub IsNewRecord : AuditSourceRow → CreateRecordItem → Type 0
  IsNewRecord row c =
      (IsSelfApproved row
        × (c ≡ record {
          fields = object (
              of_fields (
                insert rule.audit_result_field (string rule.manual_auto_approve_result)
                  (key_fields row)));
        }))
      ⊎ (¬ IsSelfApproved row × (c ≡ record { fields = object (of_fields (key_fields row)) }))

  -- The update of an existing record: the approval alone.
  abbrev pub IsUpdate : ExistingRecordIndexItem → UpdateRecordItem → Type 0
  IsUpdate item u = u ≡ record {
    record_id = item.record_id;
    fields =
        object
          (of_fields (insert rule.audit_result_field (string rule.manual_auto_approve_result) []));
  }

  -- The update approves the record of a row that is approved by itself and was not approved yet.
  abbrev pub IsApproval : List AuditSourceRow → UpdateRecordItem → Type 0
  IsApproval rows u =
      (row : AuditSourceRow) × (item : ExistingRecordIndexItem) × Memᴰ row rows
      × (lookup row.unique_key index ≡ some item)
      × IsSelfApproved row
      × (audit_result_is_approved h item.fields rule ≡ false)
      × IsUpdate item u

  -- The new record is that of a row without a record.
  abbrev pub IsCreation : List AuditSourceRow → CreateRecordItem → Type 0
  IsCreation rows c =
      (row : AuditSourceRow) × Memᴰ row rows
      × (lookup row.unique_key index ≡ none)
      × IsNewRecord row c

  -- A row without a record gets its new record. A row with a record has it approved, unless the row
  -- is not approved by itself or the record is approved already.
  abbrev pub IsAudited : AuditPlan → AuditSourceRow → Type 0
  IsAudited plan row =
      ((lookup row.unique_key index ≡ none)
        × (c : CreateRecordItem) × Memᴰ c plan.need_create_records
        × IsNewRecord row c)
      ⊎ ((item : ExistingRecordIndexItem) × (lookup row.unique_key index ≡ some item)
          × ((¬ IsSelfApproved row ⊎ (audit_result_is_approved h item.fields rule ≡ true))
              ⊎ ((u : UpdateRecordItem) × IsUpdate item u × Memᴰ u plan.need_update_records)))

  audit_fields-IsNewRecord :
      (row : AuditSourceRow)
      → IsNewRecord row
          (record { fields = object (of_fields (audit_fields h key_field rules rule row)) })
  unfolding audit_fields approved_audit_result_fields extend insert
  audit_fields-IsNewRecord row =
      elim (Bool-cases (is_manual_data_source row.data_source rule.manual_source_value)) [
        | inr m ↦ rw (m, audit_fields) (inr (λ (d, p). cc, refl))
        | inl m ↦ elim (Bool-cases rule.manual_auto_approve) [
          | inl a ↦ rw (m, a, audit_fields) (inl ((refl, refl), refl))
          | inr a ↦ rw (m, a, audit_fields) (inr (λ (d, p). cc, refl))
        ]
      ]

  All-earlier :
      {A : Type 0} (P : List AuditSourceRow → A → Type 0) (row : AuditSourceRow)
      (rows : List AuditSourceRow)
      → ((a : A) → P rows a → P (row ∷ rows) a)
      → (list : List A) → All (P rows) list
      → All (P (row ∷ rows)) list
  All-earlier P row rows step [] all = tt
  All-earlier P row rows step (a ∷ list) (p, all) = (step a p, All-earlier P row rows step list all)

  and-true : (a b c : Bool) → (a && b) && not c ≡ true → (a ≡ true) × (b ≡ true) × (c ≡ false)
  and-true true true false e = (refl, refl, refl)
  and-true true true true e = cc
  and-true true false c e = cc
  and-true false b c e = cc

  -- Nothing is approved but what the rule approves: each update approves the record of a row of the
  -- manual table, where the rule approves such rows, and that record did not yet hold the approval;
  -- each new record is that of a row without a record, and holds the approval exactly if the row
  -- comes from the manual table and the rule approves such rows, and otherwise its key alone.
  pub build_audit_sync_records-IsApproval :
      (rows : List AuditSourceRow)
      → All
          (IsApproval rows)
          (build_audit_sync_records h key_field rules rule rows index).need_update_records
        × All
            (IsCreation rows)
            (build_audit_sync_records h key_field rules rule rows index).need_create_records
  unfolding build_audit_sync_records audit_row approved_audit_result_fields
  build_audit_sync_records-IsApproval [] = (tt, tt)
  build_audit_sync_records-IsApproval (row ∷ rows) =
      let plan = build_audit_sync_records h key_field rules rule rows index in
      let (updates, creates) = build_audit_sync_records-IsApproval rows in
      let other_updates =
        All-earlier IsApproval row rows
          (λ u (r, item, m, l, s, n, e). (r, item, Memᴰ.tail m, l, s, n, e))
          plan.need_update_records updates in
      let other_creates =
        All-earlier IsCreation row rows (λ c (r, m, l, n). (r, Memᴰ.tail m, l, n))
          plan.need_create_records creates in
      elim (Option-cases (lookup row.unique_key index)) [
        | inl e ↦
            rw (e, audit_row)
              (
                other_updates,
                ((row, Memᴰ.head refl, e, audit_fields-IsNewRecord row), other_creates),
              )
        | inr (item, e) ↦
            elim (Bool-cases (
              should_auto_approve h key_field rules rule row
              && not (audit_result_is_approved h item.fields rule))) [
                | inl c ↦
                    let (m, a, n) = and-true _ _ _ c in
                    rw (e, audit_row, c)
                      (
                        ((row, item, Memᴰ.head refl, e, (m, a), n, refl), other_updates),
                        other_creates,
                      )
                | inr c ↦ rw (e, audit_row, c) (other_updates, other_creates)
              ]
      ]

  IsAudited-audit_row :
      (plan : AuditPlan) (first row : AuditSourceRow)
      → IsAudited plan row
      → IsAudited (audit_row h key_field rules rule index first plan) row
  unfolding audit_row
  IsAudited-audit_row plan first row done = elim (Option-cases (lookup first.unique_key index)) [
    | inl e ↦
        rw (e, audit_row)
          (elim done [ inl (l, c, m, n) ↦ inl (l, c, Memᴰ.tail m, n) | inr other ↦ inr other ])
    | inr (item, e) ↦
        elim (Bool-cases (
          should_auto_approve h key_field rules rule first
          && not (audit_result_is_approved h item.fields rule))) [
            | inl c ↦
                rw (e, audit_row, c)
                  (elim done [
                    | inl created ↦ inl created
                    | inr (other, l, inl n) ↦ inr (other, l, inl n)
                    | inr (other, l, inr (u, k, m)) ↦ inr (other, l, inr (u, k, Memᴰ.tail m))
                  ])
            | inr c ↦ rw (e, audit_row, c) done
          ]
  ]

  unapproved :
      (row : AuditSourceRow) (approved : Bool)
      → should_auto_approve h key_field rules rule row && not approved ≡ false
      → ¬ IsSelfApproved row ⊎ (approved ≡ true)
  unapproved row true e = inr refl
  unapproved row false e = inl (λ (m, a). let q = rw (m, a) at e in cc)

  audit_row-IsAudited :
      (plan : AuditPlan) (row : AuditSourceRow)
      → IsAudited (audit_row h key_field rules rule index row plan) row
  unfolding audit_row approved_audit_result_fields
  audit_row-IsAudited plan row = elim (Option-cases (lookup row.unique_key index)) [
    | inl e ↦ inl (e, _, rw (e, audit_row) (Memᴰ.head refl), audit_fields-IsNewRecord row)
    | inr (item, e) ↦
        elim (Bool-cases (
          should_auto_approve h key_field rules rule row
          && not (audit_result_is_approved h item.fields rule))) [
            | inl c ↦ inr (item, e, inr (_, refl, rw (e, audit_row, c) (Memᴰ.head refl)))
            | inr c ↦
                inr (item, e, inl (unapproved row (audit_result_is_approved h item.fields rule) c))
          ]
  ]

  All-IsAudited :
      (plan : AuditPlan) (first : AuditSourceRow) (rows : List AuditSourceRow)
      → All (IsAudited plan) rows
      → All (IsAudited (audit_row h key_field rules rule index first plan)) rows
  All-IsAudited plan first [] done = tt
  All-IsAudited plan first (row ∷ rows) (p, done) =
      (IsAudited-audit_row plan first row p, All-IsAudited plan first rows done)

  -- Each row has its place in the audit plan. A row without a record is created with its key, and
  -- with the approval too exactly if it comes from the manual table and the rule approves such rows;
  -- the record of any other row that is approved so is approved, unless it is already.
  pub build_audit_sync_records-IsAudited :
      (rows : List AuditSourceRow)
      → All (IsAudited (build_audit_sync_records h key_field rules rule rows index)) rows
  unfolding build_audit_sync_records
  build_audit_sync_records-IsAudited [] = tt
  build_audit_sync_records-IsAudited (row ∷ rows) =
      let plan = build_audit_sync_records h key_field rules rule rows index in
      (
        audit_row-IsAudited plan row,
        All-IsAudited plan row rows (build_audit_sync_records-IsAudited rows),
      )
