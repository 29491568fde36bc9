-- ===== src/Pvm/Safety/Table/Mem.antt =====
-- The loads and stores step well.
use tsjam.Prelude.{All}
use tsjam.Codec.Buffer.{BigintBuffer}
use tsjam.Pvm.Instructions.{mem_ixs}
use tsjam.Pvm.Safety.Loads.{
  load_u8-Keeps, load_u16-Keeps, load_u32-Keeps, load_u64-Keeps, load_i8-Keeps, load_i16-Keeps,
  load_i32-Keeps, load_ind_u8-Keeps, load_ind_u16-Keeps, load_ind_u32-Keeps, load_ind_u64-Keeps,
  load_ind_i8-Keeps, load_ind_i16-Keeps, load_ind_i32-Keeps,
}
use tsjam.Pvm.Safety.Stores.{
  store_imm_u8-Keeps, store_imm_u16-Keeps, store_imm_u32-Keeps, store_imm_u64-Keeps, store_u8-Keeps,
  store_u16-Keeps, store_u32-Keeps, store_u64-Keeps, store_imm_ind_u8-Keeps,
  store_imm_ind_u16-Keeps, store_imm_ind_u32-Keeps, store_imm_ind_u64-Keeps, store_ind_u8-Keeps,
  store_ind_u16-Keeps, store_ind_u32-Keeps, store_ind_u64-Keeps,
}
use tsjam.Pvm.Safety.Step.{IxKeeps, ix-Keeps, ◌&&&◌}

pub mem_ixs-Keeps : (buffer : BigintBuffer) → All IxKeeps (mem_ixs buffer)
unfolding mem_ixs
mem_ixs-Keeps buffer =
    ix-Keeps _ _ _ _ _ _ (λ bytes args b d. store_imm_u8-Keeps args)
    &&& ix-Keeps _ _ _ _ _ _ (λ bytes args b d. store_imm_u16-Keeps args)
    &&& ix-Keeps _ _ _ _ _ _ (λ bytes args b d. store_imm_u32-Keeps args)
    &&& ix-Keeps _ _ _ _ _ _ (λ bytes args b d. store_imm_u64-Keeps args)
    &&& ix-Keeps _ _ _ _ _ _ (λ bytes args b d. load_u8-Keeps args)
    &&& ix-Keeps _ _ _ _ _ _ (λ bytes args b d. load_u16-Keeps args)
    &&& ix-Keeps _ _ _ _ _ _ (λ bytes args b d. load_u32-Keeps args)
    &&& ix-Keeps _ _ _ _ _ _ (λ bytes args b d. load_u64-Keeps args)
    &&& ix-Keeps _ _ _ _ _ _ (λ bytes args b d. load_i8-Keeps args)
    &&& ix-Keeps _ _ _ _ _ _ (λ bytes args b d. load_i16-Keeps args)
    &&& ix-Keeps _ _ _ _ _ _ (λ bytes args b d. load_i32-Keeps args)
    &&& ix-Keeps _ _ _ _ _ _ (λ bytes args b d. store_u8-Keeps args)
    &&& ix-Keeps _ _ _ _ _ _ (λ bytes args b d. store_u16-Keeps args)
    &&& ix-Keeps _ _ _ _ _ _ (λ bytes args b d. store_u32-Keeps args)
    &&& ix-Keeps _ _ _ _ _ _ (λ bytes args b d. store_u64-Keeps args)
    &&& ix-Keeps _ _ _ _ _ _ (λ bytes args b d. store_imm_ind_u8-Keeps args)
    &&& ix-Keeps _ _ _ _ _ _ (λ bytes args b d. store_imm_ind_u16-Keeps args)
    &&& ix-Keeps _ _ _ _ _ _ (λ bytes args b d. store_imm_ind_u32-Keeps args)
    &&& ix-Keeps _ _ _ _ _ _ (λ bytes args b d. store_imm_ind_u64-Keeps args)
    &&& ix-Keeps _ _ _ _ _ _ (λ bytes args b d. store_ind_u8-Keeps args)
    &&& ix-Keeps _ _ _ _ _ _ (λ bytes args b d. store_ind_u16-Keeps args)
    &&& ix-Keeps _ _ _ _ _ _ (λ bytes args b d. store_ind_u32-Keeps args)
    &&& ix-Keeps _ _ _ _ _ _ (λ bytes args b d. store_ind_u64-Keeps args)
    &&& ix-Keeps _ _ _ _ _ _ (λ bytes args b d. load_ind_u8-Keeps args)
    &&& ix-Keeps _ _ _ _ _ _ (λ bytes args b d. load_ind_u16-Keeps args)
    &&& ix-Keeps _ _ _ _ _ _ (λ bytes args b d. load_ind_u32-Keeps args)
    &&& ix-Keeps _ _ _ _ _ _ (λ bytes args b d. load_ind_u64-Keeps args)
    &&& ix-Keeps _ _ _ _ _ _ (λ bytes args b d. load_ind_i8-Keeps args)
    &&& ix-Keeps _ _ _ _ _ _ (λ bytes args b d. load_ind_i16-Keeps args)
    &&& ix-Keeps _ _ _ _ _ _ (λ bytes args b d. load_ind_i32-Keeps args)
    &&& tt
