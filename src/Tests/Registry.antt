-- ===== src/Tests/Registry.antt =====
-- The instruction database on two instructions.
use tsjam.Prelude.{◌≡◌, ◌⊎◌, List, refl, some, none, [], ◌∷◌, true}
use tsjam.Pvm.Decoders.{no_arg_ix_decoder}
use tsjam.Pvm.Handlers.Flow.{trap, fallthrough}
use tsjam.Pvm.Ixdb.{Ix, ix, reg_all}
use tsjam.Pvm.Ixdb.New.{IsDistinct}
use tsjam.Pvm.Ixdb.Registry.{IsLookup, reg_all-IsLookup}

abbrev trap_ix : Ix
trap_ix = ix 0 "trap" true true no_arg_ix_decoder trap

abbrev fallthrough_ix : Ix
fallthrough_ix = ix 1 "fallthrough" true true no_arg_ix_decoder fallthrough

abbrev two_ixs : List Ix
two_ixs = trap_ix ∷ fallthrough_ix ∷ []

-- A second instruction with the code 1 throws, a code that was not registered is not found.
twice_registered : reg_all [] (fallthrough_ix ∷ fallthrough_ix ∷ []) ≡ none
unfolding reg_all ix
twice_registered = refl

two_registered : reg_all [] two_ixs ≡ some (fallthrough_ix ∷ trap_ix ∷ [])
unfolding reg_all ix
two_registered = refl

reg_all-IsLookup_example :
    ((db : List Ix) × IsDistinct two_ixs × (reg_all [] two_ixs ≡ some db) × IsLookup two_ixs db 1)
    ⊎ (¬ IsDistinct two_ixs × (reg_all [] two_ixs ≡ none))
reg_all-IsLookup_example = reg_all-IsLookup two_ixs 1
