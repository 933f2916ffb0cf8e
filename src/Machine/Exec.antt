-- ===== src/Machine/Exec.antt =====
-- Machine::OneInstruction of code/machine/mipssim.cc: what one instruction does. The build files
-- define SIM_FIX, so that branch of each #ifdef is the code.
pub mod Effect
pub mod Arith
pub mod Shift
pub mod Branch
pub mod Load
pub mod Store
pub mod Safety
pub mod Step
