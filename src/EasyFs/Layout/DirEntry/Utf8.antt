-- ===== src/EasyFs/Layout/DirEntry/Utf8.antt =====
-- What the standard library takes for UTF-8, as an automaton over the bytes.
use r_core_tutorial_code.Base.{
  ℕ, zero, suc, Option, none, some, List, [], ◌∷◌, leb, ltb, ◌==◌, ◌&&◌, if◌then◌else◌, Bool, true,
  false,
}

-- What may come next: a first byte, or one between two bounds with some continuation bytes behind it.
pub data Expect : Type 0 where
  first : Expect
  between : ℕ → ℕ → ℕ → Expect

continue : ℕ → Expect
continue zero = first
continue (suc n) = between 0x80 0xbf n

-- The first byte of a character says how it goes on.
lead : ℕ → Option Expect
lead b =
    if ltb b 0x80
    then some first
    else if leb 0xc2 b && leb b 0xdf
    then some (between 0x80 0xbf 0)
    else if b == 0xe0
    then some (between 0xa0 0xbf 1)
    else if b == 0xed
    then some (between 0x80 0x9f 1)
    else if leb 0xe1 b && leb b 0xef
    then some (between 0x80 0xbf 1)
    else if b == 0xf0
    then some (between 0x90 0xbf 2)
    else if leb 0xf1 b && leb b 0xf3
    then some (between 0x80 0xbf 2)
    else if b == 0xf4
    then some (between 0x80 0x8f 2)
    else none

step : Expect → ℕ → Option Expect
unfolding continue lead
step first b = lead b
step (between lo hi n) b = if leb lo b && leb b hi then some (continue n) else none

accept : Expect → List ℕ → Bool
unfolding step
accept first [] = true
accept (between lo hi n) [] = false
accept e (b ∷ bs) = elim (step e b) [ none ↦ false | some e' ↦ accept e' bs ]

unfoldable pub is_utf8 : List ℕ → Bool
unfolding accept
is_utf8 s = accept first s
