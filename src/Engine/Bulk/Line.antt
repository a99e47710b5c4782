-- ===== src/Engine/Bulk/Line.antt =====
-- crates/osproxy-engine/src/bulkline.rs: one line of the response for each operation. What serde writes is
-- given as the JSON value that it stands for; `decimal` is the text that serde_json gives a number.
use opensearch_proxy.Prelude.{ℕ, Bool, true, false, Option, none, some, List, [], ◌∷◌}
use opensearch_proxy.Prelude.Bytes.{Bytes, ascii}
use opensearch_proxy.Prelude.Map.{Entries}
use opensearch_proxy.Core.Json.{
  Value, null, bool, number, string, array, object, Items, nil, cons, of_entries,
}

pub data LineKind : Type 0 where
  result : Bytes → LineKind
  queued : Bytes → LineKind
  error : Bytes → LineKind

pub record Line : Type 0 where
  pub action : Bytes
  pub index : Bytes
  pub id : Option Bytes
  pub status : ℕ
  pub kind : LineKind

abbrev pub result_line : Bytes → Bytes → Option Bytes → ℕ → Bytes → Line
result_line action index id status outcome = record {
  action = action;
  index = index;
  id = id;
  status = status;
  kind = result outcome;
}

abbrev pub queued_line_of : Bytes → Bytes → Option Bytes → ℕ → Bytes → Line
queued_line_of action index id status op_id = record {
  action = action;
  index = index;
  id = id;
  status = status;
  kind = queued op_id;
}

abbrev pub error_line_of : Bytes → Bytes → Option Bytes → ℕ → Bytes → Line
error_line_of action index id status kind = record {
  action = action;
  index = index;
  id = id;
  status = status;
  kind = error kind;
}

abbrev is_error_kind : LineKind → Bool
is_error_kind (error _) = true
is_error_kind (result _) = false
is_error_kind (queued _) = false

abbrev pub is_error : Line → Bool
is_error line = is_error_kind line.kind

abbrev pub text_or_null : Option Bytes → Value
text_or_null none = null
text_or_null (some text) = string text

module _ (decimal : ℕ → Bytes) where
  abbrev pub tail_of : ℕ → LineKind → Entries Bytes Value
  tail_of status (result outcome) =
      (ascii "status", number (decimal status)) ∷ (ascii "result", string outcome) ∷ []
  tail_of status (queued op_id) =
      (ascii "op_id", string op_id)
      ∷ (ascii "status", number (decimal status))
      ∷ (ascii "result", string (ascii "queued"))
      ∷ []
  tail_of status (error kind) =
      (ascii "status", number (decimal status))
      ∷ (ascii "error", object (of_entries ((ascii "type", string kind) ∷ [])))
      ∷ []

  unfoldable pub body_of : Line → Entries Bytes Value
  body_of line =
      (ascii "_index", string line.index)
      ∷ (ascii "_id", text_or_null line.id)
      ∷ tail_of line.status line.kind

  unfoldable pub line_value : Line → Value
  unfolding body_of
  line_value line = object (of_entries ((line.action, object (of_entries (body_of line))) ∷ []))

  -- an unfilled slot is `null`
  abbrev pub slots : List (Option Line) → Items
  slots [] = nil
  slots (none ∷ later) = cons null (slots later)
  slots (some line ∷ later) = cons (line_value line) (slots later)

  unfoldable pub bulk_body : ℕ → Bool → List (Option Line) → Value
  unfolding line_value
  bulk_body took errors items = object (
      of_entries (
        (ascii "took", number (decimal took))
        ∷ (ascii "errors", bool errors)
        ∷ (ascii "items", array (slots items))
        ∷ []))
