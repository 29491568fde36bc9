-- ===== src/Pvm/Safety/Mem.antt =====
-- The handlers that load and store.
use tsjam.Prelude.{
  ℕ, zero, suc, ◌/◌, ◌^◌, ◌<◌, ◌≡◌, refl, arith, inl, inr, false, Option, none, some, ◌>>=◌,
}
use tsjam.Prelude.{
  ◌∙◌, subst, List, [], ◌∷◌, length, replicate, ltb, Option-cases, All-replicate, length-replicate,
  Bool-cases,
}
use native.Mathlib.Nat.{pow-suc}
use tsjam.Codec.Buffer.{IsByte, IsBytes}
use tsjam.Pvm.Memory.{first_unreadable, read_into}
use tsjam.Pvm.Memory.Invariant.{read_into-IsBytes}
use tsjam.Pvm.Ops.Bounds.{IsU64}
use tsjam.Pvm.Vm.{Pvm, handle_memory_fault, store_safe, set_reg}
use tsjam.Pvm.Handlers.Mem.{write_le, read_le, write_big_uint64_le, load_at}
use tsjam.Pvm.Safety.{IsSound, Keeps, unchanged, set_reg-Keeps, store_safe-Keeps}

pub write_le-IsBytes : (n v : ℕ) → IsBytes (write_le n v)
unfolding write_le
write_le-IsBytes zero v = tt
write_le-IsBytes (suc n) v = (omega arith, write_le-IsBytes n (v / 256))

pub read_le-lt : (bs : List ℕ) → IsBytes bs → read_le bs < 256 ^ length bs
unfolding read_le
read_le-lt [] h = omega arith
read_le-lt (b ∷ bs) h = omega (arith, h.0, read_le-lt bs h.1, pow-suc 256 (length bs))

module _ (pvm : Pvm) (skip : ℕ) (s : IsSound pvm) where
  -- A load of `n` bytes whose conversion gives 64-bit values.
  pub load_at-Keeps :
      (n : ℕ) (convert : ℕ → ℕ) (r address : ℕ)
      → ((v : ℕ) → v < 256 ^ n → IsU64 (convert v))
      → Keeps false pvm skip (load_at n convert r address pvm)
  unfolding load_at
  load_at-Keeps n convert r address h =
      elim (Option-cases (first_unreadable pvm.memory address n)) [
        | inr (fault, e) ↦ rw (e, load_at) (unchanged pvm skip s (some (handle_memory_fault fault)))
        | inl e ↦ rw (e, load_at) (loaded (read_into pvm.memory address (replicate n 0)) refl)
      ]
    where
      loaded :
          (o : Option (List ℕ))
          → read_into pvm.memory address (replicate n 0) ≡ o
          → Keeps false pvm skip (o >>= λ buf. set_reg pvm r (convert (read_le buf)))
      loaded none e = tt
      loaded (some buf) e =
          let (bytes, size) =
            read_into-IsBytes pvm.memory address (replicate n 0) buf s.pages
              (All-replicate IsByte n 0 (omega arith)) e in
          set_reg-Keeps pvm skip s r (convert (read_le buf)) (λ g. h (read_le buf) (
            subst (λ k. read_le buf < 256 ^ k) (size ∙ length-replicate n 0)
              (read_le-lt buf bytes)))

  -- A store of a register or an immediate of 64 bits.
  pub store_big-Keeps :
      (v location : ℕ)
      → Keeps false pvm skip (write_big_uint64_le v >>= λ buf. store_safe location buf pvm)
  unfolding write_big_uint64_le
  store_big-Keeps v location = elim (Bool-cases (ltb v (2 ^ 64))) [
    | inl e ↦ rw e (store_safe-Keeps pvm skip s location (write_le 8 v) (write_le-IsBytes 8 v))
    | inr e ↦ rw e tt
  ]
