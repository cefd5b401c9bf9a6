-- ===== src/Os/Mm/PageTable/Entry.antt =====
-- What an entry and a token hold is read back.
use r_core_tutorial_code.Base.{ℕ, ◌^◌, ◌<◌, ◌≡◌, arith}
use r_core_tutorial_code.Os.Mm.Address.{phys_page_num}
use r_core_tutorial_code.Os.Mm.PageTable.{new_entry, ppn_of, flags_of, token, from_token}

-- A page number of 44 bits and a byte of flags are read back from the entry that is made of them,
-- and a root page number of 44 bits from its token.
pub new_entry_lem :
    (ppn flags : ℕ)
    → ppn < 2 ^ 44
    → flags < 2 ^ 8
    → (ppn_of (new_entry ppn flags) ≡ ppn)
      × (flags_of (new_entry ppn flags) ≡ flags)
      × (from_token (token ppn) ≡ ppn)
unfolding ppn_of new_entry flags_of phys_page_num token from_token
new_entry_lem ppn flags lt small = (omega arith, omega arith, omega arith)
