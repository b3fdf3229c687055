-- ===== src/Bitable/Actions.antt =====
-- The asynchronous functions of src/pipeline/bitable.rs.
use lark_utils_exp.Prelude.{
  ℕ, zero, suc, ◌*◌, List, [], ◌∷◌, ◌++◌, map, Option, none, some, ok, err, panic, unfinished,
  is_nil, if◌then◌else◌, ◌==◌,
}
use lark_utils_exp.Text.{Text, text, trim}
use lark_utils_exp.Text.Decimal.{decimal}
use lark_utils_exp.Json.{Value}
use lark_utils_exp.Host.{Host}
use lark_utils_exp.Error.{message, missing_fields, refused, context, Fallible}
use lark_utils_exp.Effects.{
  Call, search_records, batch_update, batch_create, field_list, sleep, Services, Io, pure, raise,
  lift, perform, attempt, in_context, ◌>>=◌, ◌>>◌,
}
use lark_utils_exp.Sync.Rows.{BitableRecord}
use lark_utils_exp.Sync.Plan.{CreateRecordItem, UpdateRecordItem}
use lark_utils_exp.Bitable.{
  batch_size, max_retries, chunks, set_extend, collect_record_field_names, missing_field_names,
  format_field_names, BitableFieldPage, parse_bitable_field_page, is_missing_response_data_error,
}

module _ (services : Services) where
  -- What attempt `n` does with its result; `again` is the rest of the loop.
  unfoldable pub after_attempt :
      ℕ → Fallible (List BitableRecord) → Io (List BitableRecord) → Io (List BitableRecord)
  after_attempt n (ok records) again = pure records
  after_attempt n (err e) again =
      if n == max_retries
      then raise (context (text "多次读取多维表格记录失败") e)
      else (perform (sleep (n * 2)) (λ _. ok tt) >> again)
  after_attempt n panic again = lift panic
  after_attempt n unfinished again = lift unfinished

  -- The loop over the attempts, `left` of them from attempt `n` on.
  unfoldable pub attempts_from : ℕ → ℕ → Text → Text → Io (List BitableRecord)
  unfolding after_attempt
  attempts_from zero n app table = raise (message (text "读取多维表格记录失败"))
  attempts_from (suc left) n app table = do
    result ← attempt (perform (search_records app table) (λ log. services.search log app table))
    after_attempt n result (attempts_from left (suc n) app table)

  -- fn read_existing_records_with_retry
  unfoldable pub read_existing_records_with_retry : Text → Text → Io (List BitableRecord)
  unfolding attempts_from
  read_existing_records_with_retry app table = attempts_from max_retries 1 app table

  abbrev pub or_no_records : Host → Fallible (List BitableRecord) → Io (List BitableRecord)
  or_no_records h (err e) = if is_missing_response_data_error h e then pure [] else raise e
  or_no_records h r = lift r

  -- fn read_optional_records_with_retry
  unfoldable pub read_optional_records_with_retry : Host → Text → Text → Io (List BitableRecord)
  read_optional_records_with_retry h app table = do
    result ← attempt (read_existing_records_with_retry app table)
    or_no_records h result

  -- fn execute_bitable_write_request; the operation's name includes its `失败`
  unfoldable pub execute_bitable_write_request : Call → Text → Io (Unit {0})
  execute_bitable_write_request call operation = do
    response ← perform call (λ log. services.write log call)
    if response.code == 0
        then pure tt
        else raise (refused operation response.code response.message response.request_id)

  abbrev pub has_token : Option Text → Fallible Text
  has_token none = err (message (text "飞书字段列表仍有下一页，但未返回 page_token"))
  has_token (some t) =
      if is_nil (trim t) then err (message (text "飞书字段列表仍有下一页，但未返回 page_token")) else ok t

  abbrev payload_of : Option Value → Fallible Value
  payload_of none = err (message (text "飞书字段列表接口成功但没有返回 data"))
  payload_of (some v) = ok v

  -- One page of the field list.
  unfoldable pub field_page : Text → Text → Option Text → Io BitableFieldPage
  field_page app table token = do
    response ← in_context (text "调用飞书字段列表接口失败") (
        perform (field_list app table token)
          (λ log. services.list_fields log (field_list app table token)))
    if response.code == 0
        then (do
          payload ← lift (payload_of response.payload)
          lift (parse_bitable_field_page payload))
        else raise (refused (text "飞书字段列表接口失败") response.code response.message response.request_id)

  -- The loop over the pages; each round takes one of the fuel.
  unfoldable pub field_names_from : ℕ → List Text → Text → Text → Option Text → Io (List Text)
  unfolding field_page
  field_names_from zero names app table token = lift unfinished
  field_names_from (suc fuel) names app table token = do
    page ← field_page app table token
    let found = set_extend names page.field_names
    let more = do
      next ← lift (has_token page.page_token)
      field_names_from fuel found app table (some next)
    if page.has_more then more else pure found

  -- fn read_bitable_field_names
  unfoldable pub read_bitable_field_names : ℕ → Text → Text → Io (List Text)
  unfolding field_names_from
  read_bitable_field_names fuel app table = field_names_from fuel [] app table none

  -- What the field check concludes from the field names read, or from the failure to read them.
  unfoldable pub check_fields : Text → Text → List Text → Fallible (List Text) → Io (Unit {0})
  check_fields table operation write (ok known) =
      let missing = missing_field_names write known in
      if is_nil missing then pure tt else raise (missing_fields table operation missing write known)
  check_fields table operation write (err e) = pure tt
  check_fields table operation write panic = lift panic
  check_fields table operation write unfinished = lift unfinished

  -- fn validate_bitable_write_fields
  unfoldable pub validate_bitable_write_fields : ℕ → Text → Text → List Text → Text → Io (Unit {0})
  unfolding check_fields
  validate_bitable_write_fields fuel app table write operation =
      if is_nil write then pure tt else (do
        result ← attempt (read_bitable_field_names fuel app table)
        check_fields table operation write result)

  -- The loop over the chunks, from batch `n` on: a request for each, and the context of a failure.
  module _ {A : Type 0} (call : List A → Call) (values : List A → List Value)
      (operation what : Text) where
    abbrev batch_context : ℕ → List A → Text
    batch_context n chunk =
        text "第 "
        ++ (decimal n
            ++ (what
                ++ (text "；本批写入字段=["
                    ++ (format_field_names (collect_record_field_names (values chunk))
                        ++ text "]"))))

    unfoldable pub write_chunks : ℕ → List (List A) → Io (Unit {0})
    unfolding execute_bitable_write_request
    write_chunks n [] = pure tt
    write_chunks n (chunk ∷ more) =
        in_context (batch_context n chunk) (execute_bitable_write_request (call chunk) operation)
        >> write_chunks (suc n) more

  -- fn batch_update_records
  unfoldable pub batch_update_records : ℕ → Text → Text → List UpdateRecordItem → Io (Unit {0})
  unfolding write_chunks
  batch_update_records fuel app table [] = pure tt
  batch_update_records fuel app table (r ∷ records) = do
    in_context (text "校验批量更新字段失败") (
        validate_bitable_write_fields fuel app table
          (collect_record_field_names (map (λ u. u.fields) (r ∷ records))) (text "批量更新"))
    write_chunks (batch_update app table) (map (λ u. u.fields)) (text "批量更新记录失败") (text " 批更新失败") 1
        (chunks batch_size (r ∷ records))

  -- fn batch_create_records
  unfoldable pub batch_create_records : ℕ → Text → Text → List CreateRecordItem → Io (Unit {0})
  unfolding write_chunks
  batch_create_records fuel app table [] = pure tt
  batch_create_records fuel app table (r ∷ records) = do
    in_context (text "校验批量创建字段失败") (
        validate_bitable_write_fields fuel app table
          (collect_record_field_names (map (λ u. u.fields) (r ∷ records))) (text "批量创建"))
    write_chunks (batch_create app table) (map (λ u. u.fields)) (text "批量创建记录失败") (text " 批创建失败") 1
        (chunks batch_size (r ∷ records))
