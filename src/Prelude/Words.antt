-- ===== src/Prelude/Words.antt =====
-- Texts as words and lines: `strings.TrimSpace`, `Split`, `Join`, `Contains` and `EqualFold`.
use Prim.Native.Nat.{ℕ, ◌+◌}
use Prim.Native.Char.{Char, code}
use Prim.Native.String
use Prim.Native.String.{String}
use mathlib.Core.Bool.{Bool, true, false, ◌&&◌, ◌||◌}
use mathlib.Core.List.{List, [], ◌∷◌}
use planless.Prelude.Tests.{leb, ◌=?◌, ◌==◌, if◌then◌else◌}
use planless.Prelude.Text.{has_prefix}

-- `unicode.IsSpace`.
abbrev pub is_space : ℕ → Bool
is_space c =
    (leb 9 c && leb c 13)
    || c =? 32
    || c =? 133
    || c =? 160
    || c =? 5760
    || (leb 8192 c && leb c 8202)
    || c =? 8232
    || c =? 8233
    || c =? 8239
    || c =? 8287
    || c =? 12288

abbrev pub trim_left : String → String
trim_left String.[] = String.[]
trim_left (String.◌∷◌ c s) =
    let rest = trim_left s in if is_space (code c) then rest else String.◌∷◌ c s

abbrev pub trim_right : String → String
trim_right String.[] = String.[]
trim_right (String.◌∷◌ c s) =
    let rest = trim_right s in if is_space (code c) && rest == "" then "" else String.◌∷◌ c rest

-- `strings.TrimSpace`.
abbrev pub trim_space : String → String
trim_space s = trim_right (trim_left s)

abbrev pub add_char : Char → List String → List String
add_char c [] = String.◌∷◌ c String.[] ∷ []
add_char c (l ∷ ls) = String.◌∷◌ c l ∷ ls

-- `strings.Split` at the character with the code `sep`.
abbrev pub split_text : ℕ → String → List String
split_text sep String.[] = "" ∷ []
split_text sep (String.◌∷◌ c s) =
    let rest = split_text sep s in if code c =? sep then "" ∷ rest else add_char c rest

-- `strings.Join`.
abbrev pub join_texts : String → List String → String
join_texts sep [] = ""
join_texts sep (w ∷ []) = w
join_texts sep (w ∷ v ∷ rest) = String.◌++◌ w (String.◌++◌ sep (join_texts sep (v ∷ rest)))

-- `strings.Contains`.
unfoldable pub contains_text : String → String → Bool
contains_text String.[] p = has_prefix String.[] p
contains_text (String.◌∷◌ c s) p = has_prefix (String.◌∷◌ c s) p || contains_text s p

-- The folding of letters to the ASCII letters, which is what `EqualFold` compares by where one side is
-- ASCII: the long s and the kelvin sign fold to an ASCII letter too.
abbrev pub fold : ℕ → ℕ
fold c =
    if leb 65 c && leb c 90 then c + 32 else if c =? 383 then 115 else if c =? 8490 then 107 else c

-- `strings.EqualFold`, for a second text of ASCII characters.
abbrev pub equal_fold : String → String → Bool
equal_fold String.[] String.[] = true
equal_fold String.[] (String.◌∷◌ d t) = false
equal_fold (String.◌∷◌ c s) String.[] = false
equal_fold (String.◌∷◌ c s) (String.◌∷◌ d t) = fold (code c) =? fold (code d) && equal_fold s t
