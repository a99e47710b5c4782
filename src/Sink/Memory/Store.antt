-- ===== src/Sink/Memory/Store.antt =====
-- crates/osproxy-sink/src/memory.rs: the store and the acknowledgement of a batch, against what each
-- operation is to do to a function from an index and an id to a document.
use opensearch_proxy.Prelude.{
  ℕ, suc, ◌+◌, ◌%◌, ◌≡◌, refl, sym, ap, ◌∙◌, ◌≢◌, ◌⊎◌, inl, inr, Bool, true, false, Option, none,
  some, List, [], ◌∷◌, ◌++◌, ok, ◌==◌, nat_eq, list_eq, pair_eq, if◌then◌else◌, length, eq_sound,
  Bool-cases,
}
use opensearch_proxy.Prelude.Bytes.{Bytes, ascii, decimal}
use opensearch_proxy.Prelude.Map
use opensearch_proxy.Prelude.Map.{Entries}
use opensearch_proxy.Core.Ids.{u64_mod}
use opensearch_proxy.Core.Json.{
  Value, null, bool, number, string, array, object, as_object, member, of_entries,
}
use opensearch_proxy.Sink.Batch.{
  DocOp, WriteOp, WriteBatch, OpResult, op_result, WriteAck, write_ack,
}
use opensearch_proxy.Sink.Interface.{IsPositional}
use opensearch_proxy.Sink.Memory.{
  MemorySink, Docs, next_auto_id, result_for, results_for, or_null, is_true, or_this, fields_of,
  merged, merge_into, apply_update, parsed, printed_or, insert_if, store_op, store_ops, write,
  memory_sink,
}

pub length-results_for : (ops : List WriteOp) (n : ℕ) → length (results_for ops n).0 ≡ length ops
unfolding results_for
length-results_for [] n = refl
length-results_for (op ∷ ops) n = ap suc (length-results_for ops (result_for op.doc n).1)

-- The documents that one can get, by index and id.
abbrev pub View : Type 0
View = Bytes × Bytes → Option Bytes

abbrev pub view : Docs → View
view docs key = Map.get key docs

-- The last value that a list of fields gives to a name.
abbrev pub latest : Bytes → Entries Bytes Value → Option Value
latest k [] = none
latest k ((j, v) ∷ fields) =
    let later = latest k fields in
    elim later [ none ↦ if j == k then some v else none | some w ↦ some w ]

-- What an `_update` with a patch is to make of the stored document, if it holds one.
pub data IsUpdated (patch : Value) : Option Value → Option Value → Type 0 where
  upserted : {v : Value} → member patch (ascii "upsert") ≡ some v → IsUpdated patch none (some v)
  doc_upserted :
      {o : Option Value}
      → member patch (ascii "upsert") ≡ none
      → member patch (ascii "doc_as_upsert") ≡ some (bool true)
      → member patch (ascii "doc") ≡ o
      → IsUpdated patch none o
  no_upsert :
      member patch (ascii "upsert") ≡ none
      → member patch (ascii "doc_as_upsert") ≢ some (bool true)
      → IsUpdated patch none none
  fields_merged :
      {source : Value} {before doc : Entries Bytes Value} (after : Entries Bytes Value)
      → as_object source ≡ some before
      → fields_of (member patch (ascii "doc")) ≡ some doc
      → ((k : Bytes)
          → Map.get k after ≡ elim (latest k doc) [ none ↦ Map.get k before | some v ↦ some v ])
      → IsUpdated patch (some source) (some (object (of_entries after)))
  no_fields :
      {source : Value}
      → (as_object source ≡ none) ⊎ (fields_of (member patch (ascii "doc")) ≡ none)
      → IsUpdated patch (some source) (some source)

module _ (parse : Bytes → Option Value) (to_vec : Value → Option Bytes) where
  -- What an operation is to do, with a counter: its result, what it makes of the document at the id
  -- of the result, and the counter after it.
  pub data Does (n : ℕ) : DocOp → OpResult → Option Bytes → Option Bytes → ℕ → Type 0 where
    named_index :
        {id body : Bytes} {routing : Option Bytes} {old : Option Bytes}
        → Does n (DocOp.index (some id) routing body) (op_result id 201 true) old (some body) n
    auto_index :
        {body : Bytes} {routing : Option Bytes} {old : Option Bytes}
        → Does n
            (DocOp.index none routing body)
            (op_result (ascii "auto-" ++ decimal (n + 1)) 201 true)
            old
            (some body)
            ((n + 1) % u64_mod)
    named_create :
        {id body : Bytes} {routing : Option Bytes} {old : Option Bytes}
        → Does n (DocOp.create (some id) routing body) (op_result id 201 true) old (some body) n
    auto_create :
        {body : Bytes} {routing : Option Bytes} {old : Option Bytes}
        → Does n
            (DocOp.create none routing body)
            (op_result (ascii "auto-" ++ decimal (n + 1)) 201 true)
            old
            (some body)
            ((n + 1) % u64_mod)
    updates :
        {id body bytes : Bytes} {routing : Option Bytes} {old : Option Bytes} {v : Value}
        → IsUpdated (or_null (parse body)) (parsed parse old) (some v)
        → to_vec v ≡ some bytes
        → Does n (DocOp.update id routing body) (op_result id 200 false) old (some bytes) n
    unprinted :
        {id body : Bytes} {routing : Option Bytes} {old : Option Bytes} {v : Value}
        → IsUpdated (or_null (parse body)) (parsed parse old) (some v)
        → to_vec v ≡ none
        → Does n (DocOp.update id routing body) (op_result id 200 false) old old n
    nothing_new :
        {id body : Bytes} {routing : Option Bytes} {old : Option Bytes}
        → IsUpdated (or_null (parse body)) (parsed parse old) none
        → Does n (DocOp.update id routing body) (op_result id 200 false) old old n
    deletes :
        {id : Bytes} {routing : Option Bytes} {old : Option Bytes}
        → Does n (DocOp.delete id routing) (op_result id 200 false) old none n

  -- The view with one document replaced.
  abbrev pub IsReplaced : Bytes × Bytes → Option Bytes → View → View → Type 0
  IsReplaced k new v w = (key : Bytes × Bytes) → w key ≡ (if k == key then new else v key)

  -- A batch is done in its order, with one result for each operation: an operation replaces the
  -- document at its index and the id of its result, and no other.
  pub data Batched : ℕ → List WriteOp → List OpResult → View → View → ℕ → Type 0 where
    none_left : {n : ℕ} {v : View} → Batched n [] [] v v n
    one_done :
        {n m end : ℕ} {op : WriteOp} {ops : List WriteOp} {r : OpResult} {rs : List OpResult}
        {new : Option Bytes} {v mid w : View}
        → Does n op.doc r (v (op.target.index, r.id)) new m
        → IsReplaced (op.target.index, r.id) new v mid
        → Batched m ops rs mid w end
        → Batched n (op ∷ ops) (r ∷ rs) v w end

  get-merged :
      (k : Bytes) (doc target : Entries Bytes Value)
      → Map.get k (merged doc target)
        ≡ elim (latest k doc) [ none ↦ Map.get k target | some v ↦ some v ]
  unfolding merged
  get-merged k [] target = refl
  get-merged k ((j, v) ∷ doc) target =
      get-merged k doc (Map.insert j v target)
      ∙ chosen (latest k doc) (j == k) _ (Map.get-insert j k v target)
    where
      chosen :
          (later : Option Value) (b : Bool) (found : Option Value)
          → found ≡ (if b then some v else Map.get k target)
          → (◌≡◌ {A = Option Value}
              (elim later [ none ↦ found | some w ↦ some w ])
              (elim (elim later as (λ _. Option Value) [
                | none ↦ if b then some v else none
                | some w ↦ some w
              ]) [ none ↦ Map.get k target | some w ↦ some w ]))
      chosen (some w) b found h = refl
      chosen none true found h = h
      chosen none false found h = h

  fresh-IsUpdated :
      (patch : Value) (upsert as_upsert : Option Value)
      → member patch (ascii "upsert") ≡ upsert
      → member patch (ascii "doc_as_upsert") ≡ as_upsert
      → IsUpdated patch none
          (or_this upsert (if is_true as_upsert then member patch (ascii "doc") else none))
  fresh-IsUpdated patch (some v) as_upsert h k = upserted h
  fresh-IsUpdated patch none (some (bool true)) h k = doc_upserted h k refl
  fresh-IsUpdated patch none (some (bool false)) h k = no_upsert h (λ e. cc)
  fresh-IsUpdated patch none (some null) h k = no_upsert h (λ e. cc)
  fresh-IsUpdated patch none (some (number x)) h k = no_upsert h (λ e. cc)
  fresh-IsUpdated patch none (some (string x)) h k = no_upsert h (λ e. cc)
  fresh-IsUpdated patch none (some (array x)) h k = no_upsert h (λ e. cc)
  fresh-IsUpdated patch none (some (object x)) h k = no_upsert h (λ e. cc)
  fresh-IsUpdated patch none none h k = no_upsert h (λ e. cc)

  stored-IsUpdated :
      (patch source : Value) (before doc : Option (Entries Bytes Value))
      → as_object source ≡ before
      → fields_of (member patch (ascii "doc")) ≡ doc
      → IsUpdated patch (some source) (some (merge_into source before doc))
  stored-IsUpdated patch source (some before) (some doc) h k =
      fields_merged (merged doc before) h k (λ name. get-merged name doc before)
  stored-IsUpdated patch source (some before) none h k = no_fields (inr k)
  stored-IsUpdated patch source none (some doc) h k = no_fields (inl h)
  stored-IsUpdated patch source none none h k = no_fields (inl h)

  apply_update-IsUpdated :
      (old : Option Value) (body : Bytes)
      → IsUpdated (or_null (parse body)) old (apply_update parse old body)
  unfolding apply_update
  apply_update-IsUpdated none body = fresh-IsUpdated (or_null (parse body)) _ _ refl refl
  apply_update-IsUpdated (some source) body =
      stored-IsUpdated (or_null (parse body)) source _ _ refl refl

  -- An operation does something to the view.
  abbrev Changed : ℕ → Bytes → DocOp → OpResult → ℕ → Docs → Docs → Type 0
  Changed n index doc r m docs later =
      (new : Option Bytes) × Does n doc r (view docs (index, r.id)) new m
      × IsReplaced (index, r.id) new (view docs) (view later)

  same_document :
      (k : Bytes × Bytes) (docs : Docs) → IsReplaced k (view docs k) (view docs) (view docs)
  same_document k docs key = elim (Bool-cases (k == key)) [
    | inl same ↦ rw same (ap (λ j. Map.get j docs) (sym (eq_sound k key same)))
    | inr other ↦ rw other refl
  ]

  update-Changed :
      (n : ℕ) (index id body : Bytes) (routing : Option Bytes) (docs : Docs) (o : Option Value)
      → IsUpdated (or_null (parse body)) (parsed parse (view docs (index, id))) o
      → (printed : Option Bytes) → printed_or to_vec o ≡ printed
      → Changed n index
          (DocOp.update id routing body)
          (op_result id 200 false)
          n
          docs
          (insert_if (index, id) printed docs)
  update-Changed n index id body routing docs none u (some bytes) h = cc
  update-Changed n index id body routing docs none u none h =
      (_, nothing_new u, same_document (index, id) docs)
  update-Changed n index id body routing docs (some v) u (some bytes) h =
      (_, updates u h, λ key. Map.get-insert (index, id) key bytes docs)
  update-Changed n index id body routing docs (some v) u none h =
      (_, unprinted u h, same_document (index, id) docs)

  store_op-Changed :
      (n : ℕ) (index : Bytes) (doc : DocOp) (docs : Docs)
      → Changed n index doc
          (result_for doc n).0
          (result_for doc n).1
          docs
          (store_op parse to_vec index doc (result_for doc n).0 docs)
  unfolding store_op result_for next_auto_id
  store_op-Changed n index (DocOp.index (some id) routing body) docs =
      (_, named_index, λ key. Map.get-insert (index, id) key body docs)
  store_op-Changed n index (DocOp.index none routing body) docs =
      (_, auto_index, λ key. Map.get-insert _ key body docs)
  store_op-Changed n index (DocOp.create (some id) routing body) docs =
      (_, named_create, λ key. Map.get-insert (index, id) key body docs)
  store_op-Changed n index (DocOp.create none routing body) docs =
      (_, auto_create, λ key. Map.get-insert _ key body docs)
  store_op-Changed n index (DocOp.update id routing body) docs =
      update-Changed n index id body routing docs _
        (apply_update-IsUpdated (parsed parse (view docs (index, id))) body) _ refl
  store_op-Changed n index (DocOp.delete id routing) docs =
      (_, deletes, λ key. Map.get-remove (index, id) key docs)

  store_ops-Batched :
      (n : ℕ) (ops : List WriteOp) (docs : Docs)
      → Batched n ops
          (results_for ops n).0
          (view docs)
          (view (store_ops parse to_vec ops (results_for ops n).0 docs))
          (results_for ops n).1
  unfolding store_ops results_for
  store_ops-Batched n [] docs = none_left
  store_ops-Batched n (op ∷ ops) docs =
      let (_, does, replaced) = store_op-Changed n op.target.index op.doc docs in
      one_done does replaced (
        store_ops-Batched (result_for op.doc n).1 ops
          (store_op parse to_vec op.target.index op.doc (result_for op.doc n).0 docs))

  -- A write of the memory sink does its batch in order and acknowledges it with one result for each
  -- operation. Seen as a function from an index and an id to a document: an index or create stores its
  -- body under its id, or under the next automatic one; a delete removes the document; an update gives
  -- a stored object the fields of the patch's `doc`, and stores the `upsert` (or `doc`, if that is asked
  -- for) where no document can be read, if the result can be printed; every other document stays. The
  -- updated fields are described by their values, whatever their order. The batch is recorded behind
  -- the earlier ones.
  pub write_refines :
      (s : MemorySink) (batch : WriteBatch)
      → (results : List OpResult) × ((write parse to_vec s batch).0 ≡ ok (write_ack results))
        × Batched s.auto_id batch.ops results
            (view s.docs)
            (view (write parse to_vec s batch).1.docs)
            (write parse to_vec s batch).1.auto_id
        × ((write parse to_vec s batch).1.recorded ≡ s.recorded ++ (batch ∷ []))
  unfolding write
  write_refines s batch = (_, refl, store_ops-Batched s.auto_id batch.ops s.docs, refl)

  pub memory_sink-IsPositional : IsPositional (memory_sink parse to_vec)
  unfolding write
  memory_sink-IsPositional = record {
    one_each = λ s batch ack h.
        let results : ◌≡◌ {A = WriteAck} (write_ack (results_for batch.ops s.auto_id).0) ack = cc in
        ap (λ (a : WriteAck). length a.results) (sym results)
        ∙ length-results_for batch.ops s.auto_id;
  }
