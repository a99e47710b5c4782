-- ===== src/Control/Migration/Store.antt =====
-- crates/osproxy-control/src/migration.rs: the `MigrationStore` trait, with what the controller
-- relies on as laws, and the in-process implementation, the placement table.
use opensearch_proxy.Prelude.{◌≡◌, ◌≢◌, Option, some, Result, ok}
use opensearch_proxy.Core.Ids.{PartitionId, Epoch}
use opensearch_proxy.Spi.Placement.{Placement}
use opensearch_proxy.Tenancy.Migration.{PartitionState, migrating, Phase, cutover, MigrationError}

-- A distributed implementation may answer `backend` errors.
pub record MigrationStore (S : Type 0) : Type 0 where
  pub begin_migration : PartitionId → Placement → S → S × Result Epoch MigrationError
  pub enter_cutover : PartitionId → S → S × Result Epoch MigrationError
  pub complete_migration : PartitionId → S → S × Result Epoch MigrationError
  pub abort_migration : PartitionId → S → S × Result Epoch MigrationError
  pub state : S → PartitionId → Option (PartitionState × Epoch)

-- The contract: an operation touches its own partition only, `begin` needs a settled partition, and
-- `enter_cutover` needs a draining one and moves it into the window.
pub record IsStore {S : Type 0} (ops : MigrationStore S) : Type 0 where
  pub begin_frame :
      (p q : PartitionId) (to : Placement) (s : S)
      → p ≢ q
      → ops.state (ops.begin_migration p to s).0 q ≡ ops.state s q
  pub enter_frame :
      (p q : PartitionId) (s : S) → p ≢ q → ops.state (ops.enter_cutover p s).0 q ≡ ops.state s q
  pub complete_frame :
      (p q : PartitionId) (s : S)
      → p ≢ q
      → ops.state (ops.complete_migration p s).0 q ≡ ops.state s q
  pub abort_frame :
      (p q : PartitionId) (s : S) → p ≢ q → ops.state (ops.abort_migration p s).0 q ≡ ops.state s q
  pub begin_busy :
      (p : PartitionId) (to : Placement) (s : S) (from dest : Placement) (phase : Phase) (e : Epoch)
      → ops.state s p ≡ some (migrating from dest phase, e)
      → ops.state (ops.begin_migration p to s).0 p ≡ some (migrating from dest phase, e)
  pub enter_busy :
      (p : PartitionId) (s : S) (from dest : Placement) (e : Epoch)
      → ops.state s p ≡ some (migrating from dest cutover, e)
      → ops.state (ops.enter_cutover p s).0 p ≡ some (migrating from dest cutover, e)
  pub enter_moves :
      (p : PartitionId) (s : S) (e : Epoch)
      → (ops.enter_cutover p s).1 ≡ ok e
      → (from : Placement) × (dest : Placement) × (ops.state (ops.enter_cutover p s).0 p
          ≡ some (migrating from dest cutover, e))
