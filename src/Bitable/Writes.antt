-- ===== src/Bitable/Writes.antt =====
-- The batched writes of src/pipeline/bitable.rs, by the requests that they send.
use mathlib.Core.List.{append-nil, append_assoc}
use lark_utils_exp.Prelude.{
  ℕ, suc, List, [], ◌∷◌, ◌++◌, ◌≡◌, refl, sym, ap, subst, ◌∙◌, Bool, true, false, if◌then◌else◌,
  ◌==◌, map, concat, All,
}
use lark_utils_exp.Text.{Text, text}
use lark_utils_exp.Json.{Value}
use lark_utils_exp.Error.{Error}
use lark_utils_exp.Effects.{
  Call, batch_update, batch_create, Log, Services, Io, pure, raise, perform, ◌>>=◌,
}
use lark_utils_exp.Effects.Quiet.{is_write, Reads, same, more, Quiet, Quiet-in_context}
use lark_utils_exp.Effects.Success.{Ends, >>=-Ends, in_context-Ends, pure-Ends}
use lark_utils_exp.Sync.Plan.{CreateRecordItem, UpdateRecordItem}
use lark_utils_exp.Bitable.{batch_size, chunks}
use lark_utils_exp.Bitable.Chunks.{IsChunk, concat-chunks, chunks-IsChunk}
use lark_utils_exp.Bitable.Fields.{validate-Quiet}
use lark_utils_exp.Bitable.Actions.{
  execute_bitable_write_request, write_chunks, batch_update_records, batch_create_records,
}

-- The requests that write to a table, in the order in which they were sent.
unfoldable pub writes : Log → List Call
writes [] = []
writes (c ∷ log) = if is_write c then writes log ++ c ∷ [] else writes log

pub writes-Reads : {log end : Log} → Reads log end → writes end ≡ writes log
unfolding writes
writes-Reads same = refl
writes-Reads (more {c} w r) = rw w (writes-Reads r)

-- The log has sent these batches, which together are the records in order, none empty or longer
-- than the limit.
abbrev pub HasSent : {A : Type 0} → (List A → Call) → List A → Log → Log → Type 0
HasSent {A} call records log end =
    (batches : List (List A)) × (writes end ≡ writes log ++ map call batches)
    × (concat batches ≡ records)
    × All (IsChunk batch_size) batches

module _ (services : Services) where
  checked-Ends :
      (b : Bool) (e : Error) (log : Log) {u : Unit {0}} {end : Log}
      → Ends (if b then pure tt else raise e) log u end
      → log ≡ end
  unfolding pure raise
  checked-Ends true e log h = cc
  checked-Ends false e log h = cc

  execute-Ends :
      (call : Call) (operation : Text) {log : Log} {u : Unit {0}} {end : Log}
      → Ends (execute_bitable_write_request services call operation) log u end
      → end ≡ call ∷ log
  unfolding execute_bitable_write_request perform
  execute-Ends call operation {log} h =
      let (response, mid, e, rest) = >>=-Ends (perform call (λ log. services.write log call)) _ h in
      let eq = checked-Ends (response.code == 0) _ mid rest in cc

  module _ {A : Type 0} (call : List A → Call) (w : (c : List A) → is_write (call c) ≡ true)
      (values : List A → List Value) (operation what : Text) where
    write_chunks-Ends :
        (n : ℕ) (batches : List (List A)) (log : Log) {u : Unit {0}} {end : Log}
        → Ends (write_chunks services call values operation what n batches) log u end
        → writes end ≡ writes log ++ map call batches
    unfolding write_chunks writes pure
    write_chunks-Ends n [] log {u} {end} h =
        let e : log ≡ end = cc in ap writes (sym e) ∙ sym (append-nil (writes log))
    write_chunks-Ends n (b ∷ batches) log h =
        let (u', mid, first, rest) = >>=-Ends _ _ h in
        let sent = execute-Ends (call b) operation (in_context-Ends _ _ first) in
        let later = write_chunks-Ends (suc n) batches mid rest in
        let here : writes (call b ∷ log) ≡ writes log ++ call b ∷ [] = rw (w b) refl in
        later
        ∙ ap (λ l. writes l ++ map call batches) sent
        ∙ ap (λ l. l ++ map call batches) here
        ∙ append_assoc (writes log) (call b ∷ []) (map call batches)

    checked_chunks-HasSent :
        (check : Io (Unit {0})) (records : List A)
        → Quiet check
        → (log : Log) {u : Unit {0}} {end : Log}
        → Ends
            (check >>= λ _.
              write_chunks services call values operation what 1 (chunks batch_size records))
            log
            u
            end
        → HasSent call records log end
    checked_chunks-HasSent check records quiet log h =
        let (u', mid, first, rest) = >>=-Ends check _ h in
        let reads : Reads log mid = subst (λ p. Reads log p.1) first (quiet.at log) in
        (
          chunks batch_size records,
          write_chunks-Ends 1 (chunks batch_size records) mid rest
              ∙ ap (λ l. l ++ map call (chunks batch_size records)) (writes-Reads reads),
          concat-chunks 999 records,
          chunks-IsChunk 999 records,
        )

  -- A batch update that succeeds has sent all updates, in order, in requests none of which is
  -- empty or longer than the limit, and has sent no other write.
  pub batch_update_records-HasSent :
      (fuel : ℕ) (app table : Text) (records : List UpdateRecordItem) (log end : Log)
      → Ends (batch_update_records services fuel app table records) log tt end
      → HasSent (batch_update app table) records log end
  unfolding batch_update_records
  batch_update_records-HasSent fuel app table [] log end h =
      ([], ap writes (pure-Ends tt log h) ∙ sym (append-nil (writes log)), refl, tt)
  batch_update_records-HasSent fuel app table (r ∷ records) log end h =
      checked_chunks-HasSent (batch_update app table) (λ c. refl) (map (λ u. u.fields))
        (text "批量更新记录失败") (text " 批更新失败") _ (r ∷ records)
        (Quiet-in_context _ _ (validate-Quiet services fuel app table _ _)) log h

  -- A batch creation that succeeds has sent all new records, in order, in requests none of which
  -- is empty or longer than the limit, and has sent no other write.
  pub batch_create_records-HasSent :
      (fuel : ℕ) (app table : Text) (records : List CreateRecordItem) (log end : Log)
      → Ends (batch_create_records services fuel app table records) log tt end
      → HasSent (batch_create app table) records log end
  unfolding batch_create_records
  batch_create_records-HasSent fuel app table [] log end h =
      ([], ap writes (pure-Ends tt log h) ∙ sym (append-nil (writes log)), refl, tt)
  batch_create_records-HasSent fuel app table (r ∷ records) log end h =
      checked_chunks-HasSent (batch_create app table) (λ c. refl) (map (λ u. u.fields))
        (text "批量创建记录失败") (text " 批创建失败") _ (r ∷ records)
        (Quiet-in_context _ _ (validate-Quiet services fuel app table _ _)) log h
