-- ===== src/Transpiler/IdToDelay.antt =====
-- `ConvertIdToDelay` of qiskit_ibm_provider/transpiler/passes/basis/convert_id_to_delay.py. A qubit is
-- its index among the qubits of the circuit in which the gate stands, as in `qubit_index_map`: inside a
-- block that is the index in the circuit of the block, with which the code asks `durations.get`, and not
-- that of the qubit of the device. What `durations.get` answers for an index and the gate of the pass is
-- a parameter. The condition of a gate stays with it, and is not in the model.
mod Tests
pub mod Uncached
use qiskit_ibm_provider.Common.{ℕ, ◌==◌, ◌||◌, Bool, true, false, Option, none, some, if◌then◌else◌}

pub data Gate : Type 0 where
  identity : ℕ → Gate  -- the index of the qubit in its circuit
  delay : ℕ → ℕ → Gate  -- the duration, and the index of the qubit in its circuit
  other : ℕ → Gate

mutual
  pub data Circuit : Type 0 where
    done : Circuit
    op : Gate → Circuit → Circuit
    control_flow : Blocks → Circuit → Circuit

  pub data Blocks : Type 0 where
    no_block : Blocks
    block : Circuit → Blocks → Blocks

-- `_cached_durations`
abbrev pub Cache : Type 0
Cache = ℕ → Option ℕ

unfoldable pub put_cached : ℕ → ℕ → Cache → Cache
put_cached q t cached r = if r == q then some t else cached r

abbrev pub cached_time : Option ℕ → ℕ
cached_time none = 0
cached_time (some t) = t

module _ (durations : ℕ → ℕ) where
  -- `_get_duration`; a cached duration of 0 is asked for again.
  unfoldable pub get_duration : ℕ → Cache → ℕ × Cache
  unfolding put_cached
  get_duration q cached =
      let t = cached_time (cached q) in
      if t == 0 then (durations q, put_cached q (durations q) cached) else (t, cached)

  -- `_run_inner`, with the circuit that it leaves, and the same for the blocks of a control-flow
  -- operation, of which the new ones are taken only when one of the calls answers `True`.
  unfoldable mutual
    unfolding get_duration

    pub run_inner : Circuit → Cache → Bool × Circuit × Cache
    run_inner done cached = (false, done, cached)
    run_inner (op (identity q) c) cached =
        let got = get_duration q cached in
        let (m, rest, cached1) = run_inner c got.1 in (true, op (delay got.0 q) rest, cached1)
    run_inner (op (delay t q) c) cached =
        let (m, rest, cached1) = run_inner c cached in (m, op (delay t q) rest, cached1)
    run_inner (op (other g) c) cached =
        let (m, rest, cached1) = run_inner c cached in (m, op (other g) rest, cached1)
    run_inner (control_flow bs c) cached =
        let (modified_blocks, new_blocks, cached1) = run_blocks bs cached in
        let (m, rest, cached2) = run_inner c cached1 in
        (m, control_flow (if modified_blocks then new_blocks else bs) rest, cached2)

    pub run_blocks : Blocks → Cache → Bool × Blocks × Cache
    run_blocks no_block cached = (false, no_block, cached)
    run_blocks (block c bs) cached =
        let (m1, c1, cached1) = run_inner c cached in
        let (m2, bs1, cached2) = run_blocks bs cached1 in (m1 || m2, block c1 bs1, cached2)

  -- `run`
  unfoldable pub run : Circuit → Circuit
  unfolding run_inner
  run c = (run_inner c (λ q. none)).1
