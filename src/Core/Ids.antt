-- ===== src/Core/Ids.antt =====
-- crates/osproxy-core/src/ids.rs. The identifier newtypes wrap a `String` and are compared by it.
use opensearch_proxy.Prelude.{ℕ, ◌+◌, ◌-◌, ◌^◌, min}
use opensearch_proxy.Prelude.Bytes.{Bytes}

abbrev pub PartitionId : Type 0
PartitionId = Bytes

abbrev pub ClusterId : Type 0
ClusterId = Bytes

abbrev pub IndexName : Type 0
IndexName = Bytes

abbrev pub FieldName : Type 0
FieldName = Bytes

abbrev pub PrincipalId : Type 0
PrincipalId = Bytes

abbrev pub RequestId : Type 0
RequestId = Bytes

-- `Epoch(u64)`
abbrev pub Epoch : Type 0
Epoch = ℕ

-- `u64` arithmetic wraps around here.
abbrev pub u64_mod : ℕ
u64_mod = 2 ^ 64

-- `Epoch::next`: saturating, unlike the generation counter of the placement table.
unfoldable pub next : Epoch → Epoch
next e = min (e + 1) (u64_mod - 1)
