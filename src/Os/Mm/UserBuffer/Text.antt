-- ===== src/Os/Mm/UserBuffer/Text.antt =====
-- `translated_str` reads a text up to its NUL.
use r_core_tutorial_code.Base.{
  ℕ, zero, suc, ◌+◌, ◌%◌, ◌^◌, ◌<◌, ◌≡◌, refl, arith, some, List, [], ◌∷◌, ok, length,
}
use r_core_tutorial_code.Os.Mm.Address.{virt_addr}
use r_core_tutorial_code.Os.Mm.PageTable.{Memory, translate_va, from_token}
use r_core_tutorial_code.Os.Mm.UserBuffer.{load_at, push_char, str_loop, translated_str}

module _ (m : Memory) (root_ppn : ℕ) where
  -- The bytes of a text and a NUL behind them, from an address on.
  abbrev pub HoldsText : ℕ → List ℕ → Type 0
  HoldsText va [] = load_at m (translate_va m root_ppn (virt_addr va)) ≡ some 0
  HoldsText va (ch ∷ text) =
      (0 < ch)
      × (load_at m (translate_va m root_ppn (virt_addr va)) ≡ some ch)
      × HoldsText (va + 1) text

  str_loop_lem :
      (fuel va : ℕ) (text : List ℕ)
      → length text < fuel
      → va + length text < 2 ^ 64
      → HoldsText va text
      → str_loop m root_ppn fuel va ≡ ok text
  unfolding str_loop push_char
  str_loop_lem zero va text enough small h = absurd (omega arith)
  str_loop_lem (suc fuel) va [] enough small h = rw h refl
  str_loop_lem (suc fuel) va (zero ∷ text) enough small (pos, here, rest) = absurd (omega arith)
  str_loop_lem (suc fuel) va (suc ch ∷ text) enough small (pos, here, rest) =
      let next : (va + 1) % 2 ^ 64 ≡ va + 1 = omega arith in
      rw (here, next, str_loop_lem fuel (va + 1) text (omega arith) (omega arith) rest) refl

-- Where a text and a NUL behind it lie in the mapped memory of a process, below the end of the
-- addresses, `translated_str` returns the text.
pub translated_str_lem :
    (m : Memory) (fuel token ptr : ℕ) (text : List ℕ)
    → length text < fuel
    → ptr + length text < 2 ^ 64
    → HoldsText m (from_token token) ptr text
    → translated_str m fuel token ptr ≡ ok text
unfolding translated_str
translated_str_lem m fuel token ptr text enough small h =
    str_loop_lem m (from_token token) fuel ptr text enough small h
