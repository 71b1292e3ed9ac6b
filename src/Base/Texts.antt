-- ===== src/Base/Texts.antt =====
-- Texts as lists of code points.
use Prim.Native.String.{String}
use Prim.Native.Char.{code}
use mathlib.Core.Bool.{Bool, true, false, ◌&&◌}
use mathlib.Core.List.{[], ◌∷◌}
use nestjs_homework.Base.Tests.{◌==◌, if◌then◌else◌}
use nestjs_homework.Base.Lists.{Text, drop, length}

-- The code points of a text.
abbrev pub codes : String → Text
codes String.[] = []
codes (String.◌∷◌ c s) = code c ∷ codes s

-- `s.startsWith(t)`, with `t` first.
abbrev pub starts_with : Text → Text → Bool
starts_with [] t = true
starts_with (c ∷ cs) [] = false
starts_with (c ∷ cs) (d ∷ ds) = c == d && starts_with cs ds

-- `s.replace(t, '')`, with `t` first: the first occurrence goes.
abbrev pub without_first : Text → Text → Text
without_first t [] = []
without_first t (c ∷ cs) =
    let rest = without_first t cs in
    if starts_with t (c ∷ cs) then drop (length t) (c ∷ cs) else c ∷ rest
