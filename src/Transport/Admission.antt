-- ===== src/Transport/Admission.antt =====
-- crates/osproxy-transport/src/admission.rs: the budget of buffered bytes. A `usize` has 64 bits.
-- `try_reserve` is a loop around a compare-and-exchange; it is modelled by one round of the loop, so
-- that other threads may run between any two accesses of the counter.
pub mod Interleaving
use opensearch_proxy.Prelude.{
  ℕ, ◌+◌, ◌-◌, ◌*◌, ◌%◌, ◌^◌, Bool, true, false, ◌&&◌, Option, none, some, ltb, if◌then◌else◌, ◌==◌,
  nat_eq,
}

abbrev pub usize_mod : ℕ
usize_mod = 2 ^ 64

pub record IngressLimits : Type 0 where
  pub max_body_bytes : ℕ
  pub inflight_ceiling : ℕ
  pub max_connections : ℕ

-- `IngressLimits::default()`
abbrev pub default_limits : IngressLimits
default_limits = record {
  max_body_bytes = 8 * 1024 * 1024;
  inflight_ceiling = 256 * 1024 * 1024;
  max_connections = 16 * 1024;
}

-- The sum to write, or `none` where the request is shed: `checked_add(amount)?` and the ceiling.
abbrev pub wanted : ℕ → ℕ → ℕ → Option ℕ
wanted ceiling current amount =
    let next = current + amount in
    if ltb next usize_mod then (if ltb ceiling next then none else some next) else none

-- How a round ends: the request is shed, the counter is advanced to the sum and the reservation is
-- returned, or the loop goes on from the value that the exchange saw.
pub data Round : Type 0 where
  shed : Round
  reserved again : ℕ → Round

-- One round from `current`, when the counter holds `inflight`. `spurious` is the exchange's licence
-- to fail although the values agree.
unfoldable pub round : ℕ → ℕ → ℕ → ℕ → Bool → Round
round ceiling inflight current amount spurious = elim (wanted ceiling current amount) [
  | none ↦ shed
  | some next ↦
      if spurious
      then again inflight
      else if inflight == current
      then reserved next
      else again inflight
]

-- `Drop for Reservation`: `fetch_sub`, which wraps around.
unfoldable pub release : ℕ → ℕ → ℕ
release inflight amount = (inflight + usize_mod - amount) % usize_mod
