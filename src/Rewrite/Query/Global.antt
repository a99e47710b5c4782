-- ===== src/Rewrite/Query/Global.antt =====
-- crates/osproxy-rewrite/src/query.rs: which aggregations hold a global one.
use opensearch_proxy.Prelude.{
  ◌≡◌, ◌↔◌, ◌⊎◌, inl, inr, refl, ap, ◌∙◌, Bool, true, false, ◌||◌, Option, none, some, ◌==◌, nat_eq,
  list_eq, is_some, Bool-cases, arith,
}
use opensearch_proxy.Prelude.Map
use opensearch_proxy.Prelude.Bytes.{Bytes, ascii}
use opensearch_proxy.Core.Json.{
  Value, Fields, null, bool, number, string, array, object, end, field, entries,
}
use opensearch_proxy.Rewrite.Query.{contains_global_agg, any_agg, is_global, global_below}

-- The value of some field.
pub data ValueIn (v : Value) : Fields → Type 0 where
  first : {k : Bytes} {later : Fields} → ValueIn v (field k v later)
  later : {k : Bytes} {w : Value} {more : Fields} → ValueIn v more → ValueIn v (field k w more)

-- The nestings that an aggregation may have.
pub data Nests : Bytes → Type 0 where
  under_aggs : Nests (ascii "aggs")
  under_aggregations : Nests (ascii "aggregations")

-- An aggregations object that holds a global aggregation at some depth, and a global aggregation, or one
-- that has such an object below it.
mutual
  pub data HasGlobal : Value → Type 0 where
    within : {fs : Fields} {agg : Value} → ValueIn agg fs → IsGlobal agg → HasGlobal (object fs)

  pub data IsGlobal : Value → Type 0 where
    bucket :
        {fs : Fields} {v : Value}
        → Map.get (ascii "global") (entries fs) ≡ some v
        → IsGlobal (object fs)
    below :
        {fs : Fields} {v : Value} {k : Bytes}
        → Nests k
        → Map.get k (entries fs) ≡ some v
        → HasGlobal v
        → IsGlobal (object fs)

or_cases : (a b : Bool) → (a || b) ≡ true → (a ≡ true) ⊎ (b ≡ true)
or_cases true b h = inl refl
or_cases false b h = inr h

some_bound : (o : Option Value) → is_some o ≡ true → (v : Value) × (o ≡ some v)
some_bound none h = cc
some_bound (some v) h = (v, refl)

outer :
    (k : Bytes) (w : Value) (more : Fields)
    → HasGlobal (object more)
    → HasGlobal (object (field k w more))
outer k w more (within i agg) = within (later i) agg

mutual
  unfolding contains_global_agg any_agg is_global global_below Map.get

  found : (v : Value) → contains_global_agg v ≡ true → HasGlobal v
  found (object fs) h = agg_found fs h
  found null h = cc
  found (bool b) h = cc
  found (number n) h = cc
  found (string s) h = cc
  found (array vs) h = cc

  agg_found : (fs : Fields) → any_agg fs ≡ true → HasGlobal (object fs)
  agg_found end h = cc
  agg_found (field k agg more) h = elim (or_cases (is_global agg) (any_agg more) h) [
    | inl here ↦ within first (verdict_found agg here)
    | inr there ↦ outer k agg more (agg_found more there)
  ]

  verdict_found : (v : Value) → is_global v ≡ true → IsGlobal v
  verdict_found (object fs) h =
      elim (or_cases (is_some (Map.get (ascii "global") (entries fs))) _ h) [
        | inl bound ↦
            let (v, same) = some_bound (Map.get (ascii "global") (entries fs)) bound in bucket same
        | inr nested ↦ elim (or_cases (global_below (ascii "aggs") fs) _ nested) [
          | inl here ↦
              let (v, same, deep) = below_found (ascii "aggs") fs here in below under_aggs same deep
          | inr here ↦
              let (v, same, deep) = below_found (ascii "aggregations") fs here in
              below under_aggregations same deep
        ]
      ]
  verdict_found null h = cc
  verdict_found (bool b) h = cc
  verdict_found (number n) h = cc
  verdict_found (string s) h = cc
  verdict_found (array vs) h = cc

  below_found :
      (k : Bytes) (fs : Fields)
      → global_below k fs ≡ true
      → (v : Value) × (Map.get k (entries fs) ≡ some v) × HasGlobal v
  below_found k end h = cc
  below_found k (field j agg more) h =
      let here = found agg in
      let rest = below_found k more in
      elim (Bool-cases (j == k)) [
        | inl same ↦ (agg, rw same refl, here (rw same at h))
        | inr other ↦ let (v, bound, deep) = rest (rw other at h) in (v, rw other bound, deep)
      ]

or_right : (a b : Bool) → b ≡ true → (a || b) ≡ true
or_right a b h = ground arith

is_global-any_agg :
    (v : Value) (fs : Fields) → ValueIn v fs → is_global v ≡ true → any_agg fs ≡ true
unfolding any_agg
is_global-any_agg v end i h = elim i [ ]
is_global-any_agg v (field k w more) first h = rw h refl
is_global-any_agg v (field k w more) (later i) h =
    or_right (is_global w) (any_agg more) (is_global-any_agg v more i h)

below-get :
    (k : Bytes) (fs : Fields) (v : Value)
    → Map.get k (entries fs) ≡ some v
    → global_below k fs ≡ contains_global_agg v
unfolding global_below Map.get
below-get k end v h = cc
below-get k (field j w more) v h = elim (Bool-cases (j == k)) [
  | inl same ↦
      let bound : some w ≡ some v = rw same at h in
      rw same (ap contains_global_agg (let s : w ≡ v = cc in s))
  | inr other ↦ rw other (below-get k more v (rw other at h))
]

global_nested :
    (k : Bytes) (fs : Fields) → Nests k → global_below k fs ≡ true → is_global (object fs) ≡ true
unfolding is_global
global_nested k fs under_aggs h =
    or_right _ (global_below (ascii "aggs") fs || global_below (ascii "aggregations") fs)
      (rw h refl)
global_nested k fs under_aggregations h =
    or_right _ (global_below (ascii "aggs") fs || global_below (ascii "aggregations") fs)
      (or_right (global_below (ascii "aggs") fs) (global_below (ascii "aggregations") fs) h)

mutual
  unfolding contains_global_agg is_global

  contains-found : (v : Value) → HasGlobal v → contains_global_agg v ≡ true
  contains-found v (within {fs = fs} {agg = agg} i global) =
      is_global-any_agg agg fs i (is_global-found agg global)

  is_global-found : (v : Value) → IsGlobal v → is_global v ≡ true
  is_global-found v (bucket {fs = fs} bound) = rw bound refl
  is_global-found v (below {fs = fs} {v = w} {k = k} nests bound deep) =
      global_nested k fs nests (below-get k fs w bound ∙ contains-found w deep)

-- The search for a global aggregation finds one exactly if there is one, below aggregations of any depth
-- and under either name of the nesting.
pub contains_global_agg-HasGlobal :
    (aggs : Value) → (contains_global_agg aggs ≡ true) ↔ HasGlobal aggs
contains_global_agg-HasGlobal aggs = (found aggs, contains-found aggs)
