-- ===== src/Pvm/Safety/Table/One.antt =====
-- The arithmetic instructions with two registers step well.
use Prim.Native.String.{String}
use tsjam.Prelude.{ℕ, Bool, false, All}
use tsjam.Codec.Buffer.{BigintBuffer}
use tsjam.Pvm.Decoders.{two_reg_ix_decoder}
use tsjam.Pvm.Ops.Bounds.{Keeps₁}
use tsjam.Pvm.Ops.Bounds.One.{
  move_reg-IsU64, count_set_bits_64-IsU64, count_set_bits_32-IsU64, leading_zero_bits_64-IsU64,
  leading_zero_bits_32-IsU64, trailing_zero_bits_64-IsU64, trailing_zero_bits_32-IsU64,
  sign_extend_8-IsU64, sign_extend_16-IsU64, zero_extend_16-IsU64, reverse_bytes-IsU64,
}
use tsjam.Pvm.Instructions.{one_ixs}
use tsjam.Pvm.Ixdb.{ix}
use tsjam.Pvm.Handlers.{one_op}
use tsjam.Pvm.Safety.Arithmetic.{one_op-Keeps}
use tsjam.Pvm.Safety.Step.{IxKeeps, ix-Keeps, ◌&&&◌}

one :
    (op_code : ℕ) (identifier : String) (block : Bool) (f : ℕ → ℕ)
    → Keeps₁ f
    → IxKeeps (ix op_code identifier false block two_reg_ix_decoder (one_op f))
one op_code identifier block f h = ix-Keeps _ _ _ _ _ _ (λ bytes args b d. one_op-Keeps f h args)

pub one_ixs-Keeps : (buffer : BigintBuffer) → All IxKeeps (one_ixs buffer)
unfolding one_ixs
one_ixs-Keeps buffer =
    one _ _ _ _ move_reg-IsU64
    &&& one _ _ _ _ count_set_bits_64-IsU64
    &&& one _ _ _ _ count_set_bits_32-IsU64
    &&& one _ _ _ _ leading_zero_bits_64-IsU64
    &&& one _ _ _ _ leading_zero_bits_32-IsU64
    &&& one _ _ _ _ trailing_zero_bits_64-IsU64
    &&& one _ _ _ _ trailing_zero_bits_32-IsU64
    &&& one _ _ _ _ sign_extend_8-IsU64
    &&& one _ _ _ _ sign_extend_16-IsU64
    &&& one _ _ _ _ zero_extend_16-IsU64
    &&& one _ _ _ _ reverse_bytes-IsU64
    &&& tt
