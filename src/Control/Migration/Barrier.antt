-- ===== src/Control/Migration/Barrier.antt =====
-- crates/osproxy-control/src/migration.rs: the drain barrier over any sequence of calls to one
-- controller, on any partitions.
use opensearch_proxy.Prelude.{
  ◌+◌, ◌-◌, ◌≤◌, ◌<◌, ◌≡◌, ◌≢◌, ◌∙◌, inl, inr, refl, ap, Bool, true, false, Option, none, some,
  List, [], ◌∷◌, Result, ok, err, ◌==◌, nat_eq, list_eq, All, arith, ltb, lt→ltb, if◌then◌else◌,
  eq_sound, eq_refl, ne_of_eq_false, Bool-cases,
}
use opensearch_proxy.Prelude.Map
use opensearch_proxy.Prelude.Map.{Entries, get-insert, get-remove}
use opensearch_proxy.Core.Ids.{PartitionId, Epoch}
use opensearch_proxy.Core.Time.{Instant, Duration}
use opensearch_proxy.Spi.Placement.{Placement}
use opensearch_proxy.Tenancy.Migration.{migrating, cutover, MigrationError}
use opensearch_proxy.Control.Migration.Store.{MigrationStore, IsStore}
use opensearch_proxy.Control.Migration.{
  ControlPlane, ControlError, barrier_pending, begin_migration, begun, enter_cutover, entered,
  complete_migration, closed, abort_migration, started_at, in_cutover,
}
use opensearch_proxy.Control.Migration.Calls.{
  Call, beginning, entering, completing, aborting, run, run_all, InWindow, IsStarted, IsWithin,
  IsStarted-insert, IsStarted-remove,
}

module _ {S : Type 0} (ops : MigrationStore S) (law : IsStore ops) (p : PartitionId) (t0 : Instant)
    (b : Duration) where
  pub record IsHeld (cp : ControlPlane S) : Type 0 where
    pub window : InWindow ops p cp.store
    pub started : IsStarted p t0 cp.cutover_at
    pub barrier : cp.barrier ≡ b

  complete_pending :
      (cp : ControlPlane S) (now : Instant)
      → IsHeld cp
      → t0 ≤ now
      → now < t0 + b
      → (left : Duration) × (complete_migration ops p now cp ≡ (cp, err (barrier_pending left)))
        × (0 < left)
        × (t0 + b ≤ now + left)
  unfolding complete_migration
  complete_pending cp now h late early =
      let (from, dest, e, window) = h.window in
      let (started, found, after) = h.started in
      let same : cp.barrier ≡ b = h.barrier in
      (
        cp.barrier - (now - started),
        rw (window, found, lt→ltb (now - started) cp.barrier (omega arith)),
        omega arith,
        omega arith,
      )

  begun-IsHeld :
      (cp : ControlPlane S) (r : S × Result Epoch MigrationError)
      → InWindow ops p r.0
      → IsHeld cp
      → IsHeld (begun ops cp r).0
  begun-IsHeld cp (s, ok e) w h = record { window = w; started = h.started; barrier = h.barrier }
  begun-IsHeld cp (s, err why) w h = record { window = w; started = h.started; barrier = h.barrier }

  entered-IsHeld :
      (q : PartitionId) (now : Instant) (cp : ControlPlane S) (r : S × Result Epoch MigrationError)
      → t0 ≤ now
      → InWindow ops p r.0
      → IsHeld cp
      → IsHeld (entered ops q now cp r).0
  entered-IsHeld q now cp (s, ok e) le w h = record {
    window = w;
    started = IsStarted-insert p q t0 now cp.cutover_at le h.started;
    barrier = h.barrier;
  }
  entered-IsHeld q now cp (s, err why) le w h = record {
    window = w;
    started = h.started;
    barrier = h.barrier;
  }

  closed-IsHeld :
      (q : PartitionId) (cp : ControlPlane S) (r : S × Result Epoch MigrationError)
      → q ≢ p
      → InWindow ops p r.0
      → IsHeld cp
      → IsHeld (closed ops q cp r).0
  closed-IsHeld q cp (s, ok e) ne w h = record {
    window = w;
    started = IsStarted-remove p q t0 cp.cutover_at ne h.started;
    barrier = h.barrier;
  }
  closed-IsHeld q cp (s, err why) ne w h = record {
    window = w;
    started = h.started;
    barrier = h.barrier;
  }

  -- An operation on another partition leaves the window of `p` alone.
  framed : (s s' : S) → ops.state s' p ≡ ops.state s p → InWindow ops p s → InWindow ops p s'
  framed s s' same (from, dest, e, w) = (from, dest, e, same ∙ w)

  begin_window :
      (q : PartitionId) (to : Placement) (s : S)
      → InWindow ops p s
      → InWindow ops p (ops.begin_migration q to s).0
  begin_window q to s w = elim (Bool-cases (q == p)) [
    | inl same ↦
        let (from, dest, e, at) = w in
        rw (eq_sound q p same) (from, dest, e, law.begin_busy p to s from dest cutover e at)
    | inr other ↦ framed s _ (law.begin_frame q p to s (ne_of_eq_false q p other)) w
  ]

  enter_window :
      (q : PartitionId) (s : S) → InWindow ops p s → InWindow ops p (ops.enter_cutover q s).0
  enter_window q s w = elim (Bool-cases (q == p)) [
    | inl same ↦
        let (from, dest, e, at) = w in
        rw (eq_sound q p same) (from, dest, e, law.enter_busy p s from dest e at)
    | inr other ↦ framed s _ (law.enter_frame q p s (ne_of_eq_false q p other)) w
  ]

  timed_cases :
      (q : PartitionId) (now : Instant) (cp : ControlPlane S)
      → IsHeld cp
      → t0 ≤ now
      → IsHeld
          (record cp { cutover_at = (started_at q now cp.cutover_at (Map.get q cp.cutover_at)).1 })
  timed_cases q now cp h late = go (Map.get q cp.cutover_at)
    where
      go :
          (o : Option Instant)
          → IsHeld (record cp { cutover_at = (started_at q now cp.cutover_at o).1 })
      go (some started) = record { window = h.window; started = h.started; barrier = h.barrier }
      go none = record {
        window = h.window;
        started = IsStarted-insert p q t0 now cp.cutover_at late h.started;
        barrier = h.barrier;
      }

  complete_other :
      (q : PartitionId) (now : Instant) (cp : ControlPlane S)
      → q ≢ p
      → t0 ≤ now
      → IsHeld cp
      → IsHeld (complete_migration ops q now cp).0
  unfolding complete_migration
  complete_other q now cp ne late h =
      let timed = timed_cases q now cp h late in
      let w = framed cp.store _ (law.complete_frame q p cp.store ne) h.window in
      if-IsHeld (in_cutover (ops.state cp.store q)) _ _
        (if-IsHeld
          (ltb (now - (started_at q now cp.cutover_at (Map.get q cp.cutover_at)).0) cp.barrier) _ _
          timed (closed-IsHeld q _ (ops.complete_migration q cp.store) ne w timed))
        (closed-IsHeld q cp (ops.complete_migration q cp.store) ne w h)
    where
      if-IsHeld :
          (c : Bool) (x y : ControlPlane S × Result Epoch ControlError)
          → IsHeld x.0
          → IsHeld y.0
          → IsHeld (if c then x else y).0
      if-IsHeld true x y hx hy = hx
      if-IsHeld false x y hx hy = hy

  run-IsHeld :
      (c : Call) (cp : ControlPlane S) → IsWithin p t0 b c → IsHeld cp → IsHeld (run ops c cp)
  unfolding run begin_migration enter_cutover abort_migration
  run-IsHeld (beginning q to) cp _ h =
      begun-IsHeld cp (ops.begin_migration q to cp.store) (begin_window q to cp.store h.window) h
  run-IsHeld (entering q now) cp late h =
      entered-IsHeld q now cp (ops.enter_cutover q cp.store) late (enter_window q cp.store h.window)
        h
  run-IsHeld (aborting q) cp ne h =
      closed-IsHeld q cp (ops.abort_migration q cp.store) ne
        (framed cp.store _ (law.abort_frame q p cp.store ne) h.window) h
  run-IsHeld (completing q now) cp (late, early) h = elim (Bool-cases (q == p)) [
    | inl same ↦
        let (left, pending, _, _) = complete_pending cp now h late early in
        rw (eq_sound q p same, ap (λ (r : ControlPlane S × Result Epoch ControlError). r.0) pending)
          h
    | inr other ↦ complete_other q now cp (ne_of_eq_false q p other) late h
  ]

  run_all-IsHeld :
      (cs : List Call) (cp : ControlPlane S)
      → All (IsWithin p t0 b) cs
      → IsHeld cp
      → IsHeld (run_all ops cs cp)
  unfolding run_all
  run_all-IsHeld [] cp _ h = h
  run_all-IsHeld (c ∷ cs) cp (first, rest) h =
      run_all-IsHeld cs (run ops c cp) rest (run-IsHeld c cp first h)

enter-IsHeld :
    {S : Type 0} (ops : MigrationStore S) (law : IsStore ops) (p : PartitionId) (t0 : Instant)
    (e : Epoch) (cp : ControlPlane S)
    → (enter_cutover ops p t0 cp).1 ≡ ok e
    → IsHeld ops law p t0 cp.barrier (enter_cutover ops p t0 cp).0
unfolding enter_cutover
enter-IsHeld {S} ops law p t0 e cp entry =
    go (ops.enter_cutover p cp.store) entry (law.enter_moves p cp.store)
  where
    go :
        (r : S × Result Epoch MigrationError)
        → (entered ops p t0 cp r).1 ≡ ok e
        → ((f : Epoch)
            → r.1 ≡ ok f
            → (from : Placement) × (dest : Placement) × (ops.state r.0 p
                ≡ some (migrating from dest cutover, f)))
        → IsHeld ops law p t0 cp.barrier (entered ops p t0 cp r).0
    go (s, ok f) h moves =
        let (from, dest, at) = moves f refl in
        record {
          window = (from, dest, f, at);
          started = (
            t0,
            get-insert p p t0 cp.cutover_at
                ∙ ap (λ b. if b then some t0 else Map.get p cp.cutover_at) (eq_refl p),
            omega arith,
          );
          barrier = refl;
        }
    go (s, err why) h moves = cc

-- The drain barrier: after the controller moved a partition into cutover at `t0`, and any further
-- calls on any partitions before `t0 + barrier` that are no abort of this partition, an attempt to
-- complete it before `t0 + barrier` changes nothing and is answered with a wait that ends no earlier
-- than `t0 + barrier`, and the partition is still in the cutover window of the store. The store keeps
-- its contract, and the clock does not go back behind `t0`.
pub no_completion_within_barrier :
    {S : Type 0} (ops : MigrationStore S) (p : PartitionId) (t0 now : Instant) (e : Epoch)
    (cp : ControlPlane S) (cs : List Call)
    → IsStore ops
    → (enter_cutover ops p t0 cp).1 ≡ ok e
    → All (IsWithin p t0 cp.barrier) cs
    → t0 ≤ now
    → now < t0 + cp.barrier
    → let held = run_all ops cs (enter_cutover ops p t0 cp).0 in
      (left : Duration) × (complete_migration ops p now held ≡ (held, err (barrier_pending left)))
      × (t0 + cp.barrier ≤ now + left)
      × InWindow ops p held.store
no_completion_within_barrier ops p t0 now e cp cs law entry within late early =
    let h =
      run_all-IsHeld ops law p t0 cp.barrier cs _ within (enter-IsHeld ops law p t0 e cp entry) in
    let (left, pending, _, wait) = complete_pending ops law p t0 cp.barrier _ now h late early in
    (left, pending, wait, h.window)
