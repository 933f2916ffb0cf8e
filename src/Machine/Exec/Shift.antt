-- ===== src/Machine/Exec/Shift.antt =====
-- The shifts of code/machine/mipssim.cc.
pub mod Laws
use nachos.Prelude.{◌%◌}
use nachos.Machine.{put}
use nachos.Machine.Word.{shl32, sar32}
use nachos.Machine.Exec.Effect.{advance, Case}

unfoldable pub exec_sll : Case
exec_sll m i pc = advance (put m i.rd (shl32 (m.registers i.rt) i.extra)) pc

unfoldable pub exec_sllv : Case
exec_sllv m i pc = advance (put m i.rd (shl32 (m.registers i.rt) (m.registers i.rs % 32))) pc

unfoldable pub exec_sra : Case
exec_sra m i pc = advance (put m i.rd (sar32 (m.registers i.rt) i.extra)) pc

unfoldable pub exec_srav : Case
exec_srav m i pc = advance (put m i.rd (sar32 (m.registers i.rt) (m.registers i.rs % 32))) pc

-- `tmp` is an int, so its `>>=` is the arithmetic shift.
unfoldable pub exec_srl : Case
exec_srl m i pc =
    let tmp = m.registers i.rt in let shifted = sar32 tmp i.extra in advance (put m i.rd shifted) pc

unfoldable pub exec_srlv : Case
exec_srlv m i pc =
    let tmp = m.registers i.rt in
    let shifted = sar32 tmp (m.registers i.rs % 32) in advance (put m i.rd shifted) pc
