-- ===== src/Pvm/Safety/Stores.antt =====
-- The stores, instruction by instruction.
use tsjam.Prelude.{◌+◌, ◌%◌, ◌^◌, bit_and, arith, false}
use tsjam.Pvm.Memory.{to_safe_memory_address}
use tsjam.Pvm.Decoders.{TwoImmArgs, OneRegOneImmArgs, OneRegTwoImmArgs, TwoRegOneImmArgs}
use tsjam.Pvm.Handlers.Mem.{
  byte_buffer, write_le, location, store_imm_u8, store_u8, store_imm_ind_u8, store_ind_u8,
  store_imm_u16, store_u16, store_imm_ind_u16, store_ind_u16, store_imm_u32, store_u32,
  store_imm_ind_u32, store_ind_u32, store_imm_u64, store_u64, store_imm_ind_u64, store_ind_u64,
}
use tsjam.Pvm.Safety.{KeepsAt, with_reg, store_safe-Keeps}
use tsjam.Pvm.Safety.Mem.{write_le-IsBytes, store_big-Keeps}

pub store_imm_u8-Keeps : (args : TwoImmArgs) → KeepsAt false (store_imm_u8 args)
unfolding store_imm_u8
store_imm_u8-Keeps args pvm skip s =
    store_safe-Keeps pvm skip s args.v_x (byte_buffer (args.v_y % 256)) (omega arith, tt)

pub store_u8-Keeps : (args : OneRegOneImmArgs) → KeepsAt false (store_u8 args)
unfolding store_u8
store_u8-Keeps args pvm skip s = with_reg false pvm skip s args.r_a _ λ a a_64.
    store_safe-Keeps pvm skip s (to_safe_memory_address args.v_x) (byte_buffer (a % 256))
      (omega arith, tt)

pub store_imm_ind_u8-Keeps : (args : OneRegTwoImmArgs) → KeepsAt false (store_imm_ind_u8 args)
unfolding store_imm_ind_u8
store_imm_ind_u8-Keeps args pvm skip s = with_reg false pvm skip s args.r_a _ λ a a_64.
    store_safe-Keeps pvm skip s (to_safe_memory_address (a + args.v_x))
      (byte_buffer (args.v_y % 0xff)) (omega arith, tt)

pub store_ind_u8-Keeps : (args : TwoRegOneImmArgs) → KeepsAt false (store_ind_u8 args)
unfolding store_ind_u8
store_ind_u8-Keeps args pvm skip s = with_reg false pvm skip s args.r_a _ λ a a_64.
    with_reg false pvm skip s args.r_b _ λ b b_64.
      store_safe-Keeps pvm skip s (location b args.v_x) (byte_buffer (bit_and a 0xff))
        (omega arith, tt)

pub store_imm_u16-Keeps : (args : TwoImmArgs) → KeepsAt false (store_imm_u16 args)
unfolding store_imm_u16
store_imm_u16-Keeps args pvm skip s =
    store_safe-Keeps pvm skip s args.v_x (write_le 2 (args.v_y % 2 ^ 16))
      (write_le-IsBytes 2 (args.v_y % 2 ^ 16))

pub store_u16-Keeps : (args : OneRegOneImmArgs) → KeepsAt false (store_u16 args)
unfolding store_u16
store_u16-Keeps args pvm skip s = with_reg false pvm skip s args.r_a _ λ a a_64.
    store_safe-Keeps pvm skip s (to_safe_memory_address args.v_x) (write_le 2 (a % 2 ^ 16))
      (write_le-IsBytes 2 (a % 2 ^ 16))

pub store_imm_ind_u16-Keeps : (args : OneRegTwoImmArgs) → KeepsAt false (store_imm_ind_u16 args)
unfolding store_imm_ind_u16
store_imm_ind_u16-Keeps args pvm skip s = with_reg false pvm skip s args.r_a _ λ a a_64.
    store_safe-Keeps pvm skip s (to_safe_memory_address (a + args.v_x))
      (write_le 2 (args.v_y % 2 ^ 16)) (write_le-IsBytes 2 (args.v_y % 2 ^ 16))

pub store_ind_u16-Keeps : (args : TwoRegOneImmArgs) → KeepsAt false (store_ind_u16 args)
unfolding store_ind_u16
store_ind_u16-Keeps args pvm skip s = with_reg false pvm skip s args.r_a _ λ a a_64.
    with_reg false pvm skip s args.r_b _ λ b b_64.
      store_safe-Keeps pvm skip s (location b args.v_x) (write_le 2 (bit_and a 0xffff))
        (write_le-IsBytes 2 (bit_and a 0xffff))

pub store_imm_u32-Keeps : (args : TwoImmArgs) → KeepsAt false (store_imm_u32 args)
unfolding store_imm_u32
store_imm_u32-Keeps args pvm skip s =
    store_safe-Keeps pvm skip s args.v_x (write_le 4 (args.v_y % 2 ^ 32))
      (write_le-IsBytes 4 (args.v_y % 2 ^ 32))

pub store_u32-Keeps : (args : OneRegOneImmArgs) → KeepsAt false (store_u32 args)
unfolding store_u32
store_u32-Keeps args pvm skip s = with_reg false pvm skip s args.r_a _ λ a a_64.
    store_safe-Keeps pvm skip s (to_safe_memory_address args.v_x) (write_le 4 (a % 2 ^ 32))
      (write_le-IsBytes 4 (a % 2 ^ 32))

pub store_imm_ind_u32-Keeps : (args : OneRegTwoImmArgs) → KeepsAt false (store_imm_ind_u32 args)
unfolding store_imm_ind_u32
store_imm_ind_u32-Keeps args pvm skip s = with_reg false pvm skip s args.r_a _ λ a a_64.
    store_safe-Keeps pvm skip s (to_safe_memory_address (a + args.v_x))
      (write_le 4 (args.v_y % 2 ^ 32)) (write_le-IsBytes 4 (args.v_y % 2 ^ 32))

pub store_ind_u32-Keeps : (args : TwoRegOneImmArgs) → KeepsAt false (store_ind_u32 args)
unfolding store_ind_u32
store_ind_u32-Keeps args pvm skip s = with_reg false pvm skip s args.r_a _ λ a a_64.
    with_reg false pvm skip s args.r_b _ λ b b_64.
      store_safe-Keeps pvm skip s (location b args.v_x) (write_le 4 (a % 2 ^ 32))
        (write_le-IsBytes 4 (a % 2 ^ 32))

pub store_imm_u64-Keeps : (args : TwoImmArgs) → KeepsAt false (store_imm_u64 args)
unfolding store_imm_u64
store_imm_u64-Keeps args pvm skip s = store_big-Keeps pvm skip s args.v_y args.v_x

pub store_u64-Keeps : (args : OneRegOneImmArgs) → KeepsAt false (store_u64 args)
unfolding store_u64
store_u64-Keeps args pvm skip s =
    with_reg false pvm skip s args.r_a _
      λ a a_64. store_big-Keeps pvm skip s a (to_safe_memory_address args.v_x)

pub store_imm_ind_u64-Keeps : (args : OneRegTwoImmArgs) → KeepsAt false (store_imm_ind_u64 args)
unfolding store_imm_ind_u64
store_imm_ind_u64-Keeps args pvm skip s =
    with_reg false pvm skip s args.r_a _
      λ a a_64. store_big-Keeps pvm skip s args.v_y (to_safe_memory_address (a + args.v_x))

pub store_ind_u64-Keeps : (args : TwoRegOneImmArgs) → KeepsAt false (store_ind_u64 args)
unfolding store_ind_u64
store_ind_u64-Keeps args pvm skip s = with_reg false pvm skip s args.r_a _ λ a a_64.
    with_reg false pvm skip s args.r_b _
      λ b b_64. store_big-Keeps pvm skip s a (location b args.v_x)
