-- ===== src/Tenancy/Migration.antt =====
-- crates/osproxy-tenancy/src/migration.rs: the migration states of one partition.
use opensearch_proxy.Prelude.{Bool, true, false, Option, none, some}
use opensearch_proxy.Prelude.Bytes.{Bytes}
use opensearch_proxy.Spi.Placement.{Placement}

pub data Phase : Type 0 where
  draining cutover : Phase

pub data PartitionState : Type 0 where
  active : Placement → PartitionState
  migrating : Placement → Placement → Phase → PartitionState

unfoldable pub read_placement : PartitionState → Placement
read_placement (active p) = p
read_placement (migrating from to phase) = from

unfoldable pub write_placement : PartitionState → Option Placement
write_placement (active p) = some p
write_placement (migrating from to draining) = some from
write_placement (migrating from to cutover) = none

unfoldable pub is_migrating : PartitionState → Bool
is_migrating (active p) = false
is_migrating (migrating from to phase) = true

pub data WriteAdmission : Type 0 where
  admit reject : WriteAdmission

pub data MigrationError : Type 0 where
  unknown_partition already_migrating not_migrating not_draining not_cutover : MigrationError
  backend : Bytes → MigrationError
