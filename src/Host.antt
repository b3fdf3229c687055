-- ===== src/Host.antt =====
-- What the program calls and does not implement, as parameters: `f64` parsing and printing, the
-- Unicode case tables, chrono's dates, the `url` crate and serde_json's printer.
use lark_utils_exp.Prelude.{ℕ, ℤ, List, Option}
use lark_utils_exp.Text.{Text}
use lark_utils_exp.Json.{Value}

-- `chrono::NaiveDateTime`, to the second.
pub record NaiveDateTime : Type 0 where
  pub year : ℤ
  pub month : ℕ
  pub day : ℕ
  pub hour : ℕ
  pub minute : ℕ
  pub second : ℕ

-- `url::Url`: what the program asks of it.
pub record Url : Type 0 where
  pub scheme : Text
  pub path_segments : Option (List Text)
  pub query_pairs : List (Text × Text)

pub record Host : Type 0 where
  -- `str::to_lowercase`
  pub to_lowercase : Text → Text
  -- `str::parse::<f64>`, as bits
  pub parse_f64 : Text → Option ℕ
  -- `Display` of a float in a `Number`
  pub float_text : ℕ → Text
  -- `NaiveDateTime::parse_from_str(text, format)`, the text first
  pub parse_naive : Text → Text → Option NaiveDateTime
  -- `Shanghai.from_local_datetime(&dt).single()`, then `timestamp_millis`
  pub shanghai_millis : NaiveDateTime → Option ℤ
  -- `Url::parse`
  pub parse_url : Text → Option Url
  -- `Display` of a `Value`
  pub value_text : Value → Text
