-- ===== src/Sink/Tests.antt =====
-- Runs of the circuit breaker and of the memory sink of crates/osproxy-sink.
use opensearch_proxy.Prelude.{
  none, Option, List, ok, map, ◌≡◌, refl, [], ◌∷◌, some, true, false, ◌++◌, ◌==◌, nat_eq, list_eq,
  if◌then◌else◌,
}
use opensearch_proxy.Prelude.Bytes.{Bytes, ascii}
use opensearch_proxy.Core.Json.{Value, Fields, object, number, end, field}
use opensearch_proxy.Prelude.Map
use opensearch_proxy.Tenancy.Router.{Target}
use opensearch_proxy.Sink.Batch.{DocOp, WriteBatch, OpResult, single, with_op, write_op, write_ack}
use opensearch_proxy.Sink.Memory
use opensearch_proxy.Sink.Memory.{
  write, results_for, result_for, next_auto_id, store_ops, store_op, apply_update, merged,
}
use opensearch_proxy.Sink.Memory.Store.{view, Batched, write_refines}
use opensearch_proxy.Sink.Breaker.{closed, allows, record_failure, record_success}
use opensearch_proxy.Sink.Breaker.History.{failure, Call, asks, reports, answers}

-- Two failures open the breaker; both requests behind the cooldown are let through.
abbrev two_trials : List Call
two_trials =
    reports (failure 12)
    ∷ reports (failure 15)
    ∷ asks 70
    ∷ asks 75
    ∷ asks 76
    ∷ reports (failure 80)
    ∷ asks 81
    ∷ []

both_let_through : answers 2 60 closed two_trials ≡ false ∷ true ∷ true ∷ false ∷ []
unfolding answers allows record_success record_failure
both_let_through = refl

-- A named write, an automatic one, an update and a delete at the memory sink.
abbrev a_doc : Value
a_doc = object (field (ascii "a") (number (ascii "1")) end)

abbrev b_patch : Value
b_patch = object (field (ascii "doc") (object (field (ascii "b") (number (ascii "2")) end)) end)

abbrev parse_known : Bytes → Option Value
parse_known text =
    if text == ascii "{\"a\":1}"
    then some a_doc
    else if text == ascii "{\"doc\":{\"b\":2}}"
    then some b_patch
    else none

-- The names of the fields are printed.
abbrev names_in : Fields → Bytes
names_in end = []
names_in (field k v fs) = k ++ names_in fs

abbrev print_names : Value → Option Bytes
print_names (object fs) = some (names_in fs)
print_names _ = none

abbrev orders : Target
orders = record { cluster = ascii "c"; index = ascii "orders" }

abbrev some_writes : WriteBatch
some_writes =
    with_op
      (with_op
        (with_op
          (single (write_op orders (DocOp.index (some (ascii "7")) none (ascii "{\"a\":1}")) 1))
          (write_op orders (DocOp.index none none (ascii "{\"a\":1}")) 1))
        (write_op orders (DocOp.update (ascii "7") none (ascii "{\"doc\":{\"b\":2}}")) 1))
      (write_op orders (DocOp.delete (ascii "auto-1") none) 1)

write_refines_example :
    (results : List OpResult) × ((write parse_known print_names Memory.new some_writes).0
      ≡ ok (write_ack results))
    × Batched parse_known print_names 0 some_writes.ops results
        (view [])
        (view (write parse_known print_names Memory.new some_writes).1.docs)
        (write parse_known print_names Memory.new some_writes).1.auto_id
    × ((write parse_known print_names Memory.new some_writes).1.recorded ≡ [] ++ (some_writes ∷ []))
write_refines_example = write_refines parse_known print_names Memory.new some_writes

acknowledged :
    map (λ (r : OpResult). r.id) (results_for some_writes.ops 0).0
    ≡ ascii "7" ∷ ascii "auto-1" ∷ ascii "7" ∷ ascii "auto-1" ∷ []
unfolding results_for result_for next_auto_id
acknowledged = refl

fields_merged_once :
    (write parse_known print_names Memory.new some_writes).1.docs
    ≡ ((ascii "orders", ascii "7"), ascii "ba") ∷ []
unfolding write results_for result_for next_auto_id store_ops store_op apply_update merged Map.get
    Map.insert Map.remove
fields_merged_once = refl
