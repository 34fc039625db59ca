-- ===== src/Transpiler/IdToDelay/Tests.antt =====
-- The pass on concrete circuits.
use qiskit_ibm_provider.Common.{ℕ, ◌≡◌, refl}
use qiskit_ibm_provider.Transpiler.IdToDelay.{
  identity, delay, Circuit, done, op, control_flow, no_block, block, run, run_inner, get_duration,
}
use qiskit_ibm_provider.Transpiler.IdToDelay.Uncached.{converted, run-converted}

abbrev times : ℕ → ℕ
times q = 100

-- An identity gate, and one in a block.
abbrev in_block : Circuit
in_block = op (identity 0) (control_flow (block (op (identity 1) done) no_block) done)

-- An identity gate in a block of a block.
abbrev in_inner_block : Circuit
in_inner_block =
    control_flow (block (control_flow (block (op (identity 0) done) no_block) done) no_block) done

replaced_in_block :
    run times in_block
    ≡ op (delay 100 0) (control_flow (block (op (delay 100 1) done) no_block) done)
unfolding run run_inner get_duration
replaced_in_block = refl

-- The inner one is not replaced.
kept_in_inner_block : run times in_inner_block ≡ in_inner_block
unfolding run run_inner get_duration
kept_in_inner_block = refl

run-converted_example : run times in_block ≡ converted times in_block
run-converted_example = run-converted times in_block
