-- ===== src/Common/Text.antt =====
-- Concatenation of texts, and `Array.prototype.join`.
use Prim.Native.String.{String, ◌++◌}
use mathlib.Core.List.{List, [], ◌∷◌}
use Prim.Native.Nat.{ℕ}
use Prim.Native.Char.{code}

infixl 66 ◌+++◌
abbrev pub ◌+++◌ : String → String → String
a +++ b = a ++ b

abbrev join_from : String → String → List String → String
join_from sep acc [] = acc
join_from sep acc (x ∷ xs) = join_from sep (acc +++ sep +++ x) xs

-- `xs.join(sep)`
unfoldable pub join : String → List String → String
join sep [] = ""
join sep (x ∷ xs) = join_from sep x xs

-- The characters of a text, where a program reads them one at a time.
abbrev pub codes : String → List ℕ
codes String.[] = []
codes (String.◌∷◌ letter rest) = code letter ∷ codes rest

-- Several texts.
abbrev pub words : List String → List (List ℕ)
words [] = []
words (t ∷ ts) = codes t ∷ words ts
