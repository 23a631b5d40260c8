-- ===== src/Common/Words.antt =====
-- `split(',')` and `trim` of `str`.
use Prim.Native.Char.{Char, code}
use Prim.Native.String.{String, [], ◌∷◌}
use mathlib.Core.Bool.{Bool, ◌&&◌, ◌||◌}
use mathlib.Core.List.{List, [] as none_left, ◌∷◌ as ◌then◌}
use mcp_memory_rs.Common.Tests.{if◌then◌else◌, nat_eq, leb}

-- `char::is_whitespace`, the property White_Space of Unicode.
abbrev is_whitespace : Char → Bool
is_whitespace c =
    let n = code c in
    (leb 9 n && leb n 13)
    || nat_eq n 32
    || nat_eq n 133
    || nat_eq n 160
    || nat_eq n 5760
    || (leb 8192 n && leb n 8202)
    || nat_eq n 8232
    || nat_eq n 8233
    || nat_eq n 8239
    || nat_eq n 8287
    || nat_eq n 12288

abbrev trim_start : String → String
trim_start [] = []
trim_start (c ∷ s) = let rest = trim_start s in if is_whitespace c then rest else c ∷ s

-- A character is kept if it or a later one is no white space.
abbrev keep_char : Char → String → String
keep_char c [] = if is_whitespace c then [] else c ∷ []
keep_char c (d ∷ s) = c ∷ d ∷ s

abbrev trim_end : String → String
trim_end [] = []
trim_end (c ∷ s) = keep_char c (trim_end s)

unfoldable pub trim : String → String
trim s = trim_end (trim_start s)

abbrev first_longer : Char → List String → List String
first_longer c none_left = (c ∷ []) then none_left
first_longer c (w then ws) = (c ∷ w) then ws

-- The parts between the commas.
unfoldable pub split_commas : String → List String
split_commas [] = [] then none_left
split_commas (c ∷ s) =
    let rest = split_commas s in if nat_eq (code c) 44 then [] then rest else first_longer c rest
