-- ===== src/Prelude/Lines.antt =====
-- The operations of Rust's `str` that take a text apart at its white space and lines, for ASCII texts.
use Prim.Native.Nat.{ℕ}
use mathlib.Core.Bool.{Bool, ◌&&◌, ◌||◌}
use mathlib.Core.List.{List, [], ◌∷◌, reverse}
use kubernix.Prelude.Tests.{eqb, leb, if◌then◌else◌}
use kubernix.Prelude.Text.{Bytes}

-- `char::is_whitespace`
abbrev pub is_space : ℕ → Bool
is_space c = eqb c 32 || (leb 9 c && leb c 13)

abbrev pub trim_start : Bytes → Bytes
trim_start [] = []
trim_start (c ∷ s) = if is_space c then trim_start s else c ∷ s

-- `s.trim()`
abbrev pub trim : Bytes → Bytes
trim s = reverse (trim_start (reverse (trim_start s)))

-- `s.trim_end_matches(c)`
abbrev drop_leading : ℕ → Bytes → Bytes
drop_leading c [] = []
drop_leading c (x ∷ s) = if eqb x c then drop_leading c s else x ∷ s

abbrev pub trim_end_matches : ℕ → Bytes → Bytes
trim_end_matches c s = reverse (drop_leading c (reverse s))

abbrev with_part : Bytes → List Bytes → List Bytes
with_part [] parts = parts
with_part (c ∷ s) parts = (c ∷ s) ∷ parts

-- The parts between the white space, given the part that is being read.
abbrev words : Bytes → Bytes → List Bytes
words part [] = with_part (reverse part) []
words part (c ∷ s) =
    let ended = with_part (reverse part) (words [] s) in
    let goes_on = words (c ∷ part) s in if is_space c then ended else goes_on

-- `s.split_whitespace()`
abbrev pub split_whitespace : Bytes → List Bytes
split_whitespace s = words [] s

-- A line without its carriage return.
abbrev without_cr : Bytes → Bytes
without_cr [] = []
without_cr (c ∷ s) = if eqb c 13 then s else c ∷ s

abbrev ended_line : Bytes → Bytes
ended_line line = reverse (without_cr line)

abbrev last_line : Bytes → List Bytes
last_line [] = []
last_line (c ∷ s) = reverse (c ∷ s) ∷ []

-- The lines, given the bytes of the current one from its end.
abbrev lines_from : Bytes → Bytes → List Bytes
lines_from line [] = last_line line
lines_from line (c ∷ s) =
    let next = ended_line line ∷ lines_from [] s in
    let goes_on = lines_from (c ∷ line) s in if eqb c 10 then next else goes_on

-- `s.lines()`: a newline ends a line, and the last one may be missing.
abbrev pub lines : Bytes → List Bytes
lines s = lines_from [] s
