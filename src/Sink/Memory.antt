-- ===== src/Sink/Memory.antt =====
-- crates/osproxy-sink/src/memory.rs: the sink and reader that keep everything in memory. Its four fields
-- have locks of their own; a call is taken as a whole. `parse` and `to_vec` are serde_json's.
pub mod Store
use opensearch_proxy.Prelude.{
  ℕ, ◌+◌, ◌%◌, Bool, true, false, Option, none, some, List, [], ◌∷◌, ◌++◌, map, Result, ok, ◌==◌,
  nat_eq, list_eq, pair_eq, if◌then◌else◌, length,
}
use opensearch_proxy.Prelude.Bytes.{Bytes, ascii, decimal}
use opensearch_proxy.Prelude.Map
use opensearch_proxy.Prelude.Map.{Entries}
use opensearch_proxy.Core.Ids.{u64_mod}
use opensearch_proxy.Core.Json.{
  Value, null, bool, number, string, array, object, Items, nil, cons, as_object, member, of_entries,
}
use opensearch_proxy.Sink.Batch.{
  DocOp, WriteOp, WriteBatch, OpResult, op_result, WriteAck, write_ack, SinkError,
}
use opensearch_proxy.Sink.Interface.{Sink}
use opensearch_proxy.Sink.Read.{
  ReadOp, ReadOutcome, found_outcome, not_found_outcome, SearchOp, SearchOutcome, search_outcome,
  CountOutcome, count_outcome,
}

abbrev pub Docs : Type 0
Docs = Entries (Bytes × Bytes) Bytes

pub record MemorySink : Type 0 where
  pub recorded : List WriteBatch
  pub docs : Docs
  pub searches : List SearchOp
  pub auto_id : ℕ

abbrev pub new : MemorySink
new = record { recorded = []; docs = []; searches = []; auto_id = 0 }

-- `fetch_add` wraps around and answers the old count; the `+ 1` on it would overflow at the largest.
unfoldable pub next_auto_id : ℕ → Bytes
unfolding decimal
next_auto_id n = ascii "auto-" ++ decimal (n + 1)

abbrev pub written : Option Bytes → ℕ → OpResult × ℕ
written (some id) n = (op_result id 201 true, n)
written none n = (op_result (next_auto_id n) 201 true, (n + 1) % u64_mod)

-- The result of one operation, and the counter after it.
unfoldable pub result_for : DocOp → ℕ → OpResult × ℕ
result_for (DocOp.index id routing body) n = written id n
result_for (DocOp.create id routing body) n = written id n
result_for (DocOp.update id routing body) n = (op_result id 200 false, n)
result_for (DocOp.delete id routing) n = (op_result id 200 false, n)

unfoldable pub results_for : List WriteOp → ℕ → List OpResult × ℕ
results_for [] n = ([], n)
results_for (op ∷ later) n =
    let (r, n) = result_for op.doc n in let (rest, n) = results_for later n in (r ∷ rest, n)

abbrev pub or_null : Option Value → Value
or_null none = null
or_null (some v) = v

-- `.and_then(Value::as_bool) == Some(true)`
abbrev pub is_true : Option Value → Bool
is_true (some (bool b)) = b
is_true _ = false

abbrev pub or_this : Option Value → Option Value → Option Value
or_this (some v) other = some v
or_this none other = other

abbrev pub fields_of : Option Value → Option (Entries Bytes Value)
fields_of none = none
fields_of (some v) = as_object v

-- `for (k, v) in doc { target.insert(k, v) }`
unfoldable pub merged : Entries Bytes Value → Entries Bytes Value → Entries Bytes Value
merged [] target = target
merged ((k, v) ∷ later) target = merged later (Map.insert k v target)

abbrev pub merge_into : Value → Option (Entries Bytes Value) → Option (Entries Bytes Value) → Value
merge_into source (some target) (some doc) = object (of_entries (merged doc target))
merge_into source _ _ = source

module _ (parse : Bytes → Option Value) where
  unfoldable pub apply_update : Option Value → Bytes → Option Value
  unfolding merged
  apply_update none body =
      let patch = or_null (parse body) in
      or_this (member patch (ascii "upsert")) (
        if is_true (member patch (ascii "doc_as_upsert")) then member patch (ascii "doc") else none)
  apply_update (some source) body =
      let patch = or_null (parse body) in
      some (merge_into source (as_object source) (fields_of (member patch (ascii "doc"))))

  -- the stored document, where it is JSON
  abbrev pub parsed : Option Bytes → Option Value
  parsed none = none
  parsed (some bytes) = parse bytes

abbrev pub printed_or : (Value → Option Bytes) → Option Value → Option Bytes
printed_or to_vec none = none
printed_or to_vec (some v) = to_vec v

abbrev pub insert_if : (Bytes × Bytes) → Option Bytes → Docs → Docs
insert_if key none docs = docs
insert_if key (some bytes) docs = Map.insert key bytes docs

abbrev pub or_fallback : Option Bytes → Bytes → Bytes
or_fallback none fallback = fallback
or_fallback (some bytes) fallback = bytes

abbrev pub items_of : List Value → Items
items_of [] = nil
items_of (v ∷ vs) = cons v (items_of vs)

unfoldable pub hits_body : List Value → Value
unfolding decimal
hits_body hits = object (
    of_entries (
      (
        ascii "hits",
        object (
            of_entries (
              (
                ascii "total",
                object (of_entries ((ascii "value", number (decimal (length hits))) ∷ [])),
              )
              ∷ (ascii "hits", array (items_of hits))
              ∷ [])),
      )
      ∷ []))

module _ (parse : Bytes → Option Value) (to_vec : Value → Option Bytes) where
  unfoldable pub store_op : Bytes → DocOp → OpResult → Docs → Docs
  unfolding apply_update
  store_op index (DocOp.index id routing body) result docs = Map.insert (index, result.id) body docs
  store_op index (DocOp.create id routing body) result docs =
      Map.insert (index, result.id) body docs
  store_op index (DocOp.update id routing body) result docs =
      insert_if (index, id)
        (printed_or to_vec (apply_update parse (parsed parse (Map.get (index, id) docs)) body)) docs
  store_op index (DocOp.delete id routing) result docs = Map.remove (index, id) docs

  -- `for (op, result) in batch.ops().iter().zip(ack.results())`
  unfoldable pub store_ops : List WriteOp → List OpResult → Docs → Docs
  unfolding store_op
  store_ops (op ∷ ops) (r ∷ results) docs =
      store_ops ops results (store_op op.target.index op.doc r docs)
  store_ops _ _ docs = docs

  unfoldable pub write : MemorySink → WriteBatch → Result WriteAck SinkError × MemorySink
  unfolding results_for store_ops
  write s batch =
      let (results, n) = results_for batch.ops s.auto_id in
      (
        ok (write_ack results),
        record s {
          recorded = s.recorded ++ (batch ∷ []);
          docs = store_ops batch.ops results s.docs;
          auto_id = n;
        },
      )

  unfoldable pub envelope : Bytes → Bytes → Bytes → Bool → Bytes
  envelope index id source found =
      or_fallback
        (to_vec (
          object (
            of_entries (
              (ascii "_index", string index)
              ∷ (ascii "_id", string id)
              ∷ (ascii "found", bool found)
              ∷ (ascii "_source", or_null (parse source))
              ∷ []))))
        (ascii "{\"found\":false}")

  abbrev pub outcome_of : Bytes → Bytes → Option Bytes → ReadOutcome
  outcome_of index id (some body) = found_outcome 200 (envelope index id body true)
  outcome_of index id none = not_found_outcome 404 (envelope index id (ascii "null") false)

  unfoldable pub get : MemorySink → ReadOp → Result ReadOutcome SinkError
  unfolding envelope
  get s op = ok (outcome_of op.target.index op.id (Map.get (op.target.index, op.id) s.docs))

  abbrev pub hit : Bytes → Bytes → Bytes → Value
  hit index id body = object (
      of_entries (
        (ascii "_index", string index)
        ∷ (ascii "_id", string id)
        ∷ (ascii "_source", or_null (parse body))
        ∷ []))

  -- Every stored document of the index.
  unfoldable pub hits_of : Bytes → Docs → List Value
  hits_of index [] = []
  hits_of index (((idx, id), body) ∷ docs) =
      let later = hits_of index docs in if idx == index then hit idx id body ∷ later else later

  unfoldable pub search : MemorySink → SearchOp → Result SearchOutcome SinkError × MemorySink
  unfolding hits_of hits_body
  search s op = (
    ok (
        search_outcome 200
          (or_fallback (to_vec (hits_body (hits_of op.target.index s.docs))) (ascii "{}"))),
    record s { searches = s.searches ++ (op ∷ []) },
  )

  abbrev pub memory_sink : Sink MemorySink
  unfolding write
  memory_sink = record { write = write }

-- The keys with the index.
unfoldable pub count_of : Bytes → Docs → ℕ
count_of index [] = 0
count_of index (((idx, _), _) ∷ docs) =
    let later = count_of index docs in if idx == index then later + 1 else later

unfoldable pub count : MemorySink → SearchOp → Result CountOutcome SinkError × MemorySink
unfolding count_of
count s op = (
  ok (count_outcome 200 (count_of op.target.index s.docs)),
  record s { searches = s.searches ++ (op ∷ []) },
)
