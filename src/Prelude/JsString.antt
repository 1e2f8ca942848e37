-- ===== src/Prelude/JsString.antt =====
-- `String.prototype.trim`: the white space of the language off both ends of a text.
use Prim.Native.Nat.{ℕ}
use Prim.Native.Char.{Char, code}
use Prim.Native.String.{String, [], ◌∷◌}
use mathlib.Core.Path.{◌≡◌, refl, ap, ◌∙◌}
use mathlib.Core.Logic.{inl, inr}
use mathlib.Core.Bool.{Bool, true, false, ◌&&◌, ◌||◌}
use mc_carto_live.Prelude.Tests.{leb, ◌==◌, if◌then◌else◌, Bool-cases}

-- The white space and the line ends of ECMAScript.
abbrev pub is_space : ℕ → Bool
is_space c =
    (leb 9 c && leb c 13)
    || c == 32
    || c == 160
    || c == 5760
    || (leb 8192 c && leb c 8202)
    || c == 8232
    || c == 8233
    || c == 8239
    || c == 8287
    || c == 12288
    || c == 65279

abbrev pub is_empty : String → Bool
is_empty [] = true
is_empty (c ∷ s) = false

unfoldable pub trim_start : String → String
trim_start [] = []
trim_start (c ∷ s) = let rest = trim_start s in if is_space (code c) then rest else c ∷ s

-- A character is kept if it is no space, or if one that is kept follows.
abbrev pub keep : Char → String → String
keep c rest = if is_space (code c) && is_empty rest then [] else c ∷ rest

unfoldable pub trim_end : String → String
trim_end [] = []
trim_end (c ∷ s) = keep c (trim_end s)

unfoldable pub trim : String → String
unfolding trim_start trim_end
trim s = trim_end (trim_start s)

trim_end_idem : (s : String) → trim_end (trim_end s) ≡ trim_end s
unfolding trim_end
trim_end_idem [] = refl
trim_end_idem (c ∷ s) = elim (Bool-cases (is_space (code c) && is_empty (trim_end s))) [
  | inl gone ↦ rw gone refl
  | inr kept ↦ rw (kept, trim_end_idem s, kept) refl
]

-- The text does not begin with a space.
abbrev IsFlush : String → Type 0
IsFlush [] = Unit
IsFlush (c ∷ s) = is_space (code c) ≡ false

trim_start-IsFlush : (s : String) → IsFlush (trim_start s)
unfolding trim_start
trim_start-IsFlush [] = tt
trim_start-IsFlush (c ∷ s) = elim (Bool-cases (is_space (code c))) [
  | inl space ↦ rw space (trim_start-IsFlush s)
  | inr letter ↦ rw letter letter
]

trim_end-IsFlush : (s : String) → IsFlush s → IsFlush (trim_end s)
unfolding trim_end
trim_end-IsFlush [] h = tt
trim_end-IsFlush (c ∷ s) h = rw h h

IsFlush-trim_start : (s : String) → IsFlush s → trim_start s ≡ s
unfolding trim_start
IsFlush-trim_start [] h = refl
IsFlush-trim_start (c ∷ s) h = rw h refl

pub trim_idem : (s : String) → trim (trim s) ≡ trim s
unfolding trim
trim_idem s =
    ap trim_end
      (IsFlush-trim_start (trim_end (trim_start s)) (trim_end-IsFlush _ (trim_start-IsFlush s)))
    ∙ trim_end_idem (trim_start s)

trim_ok : trim "  a b " ≡ "a b"
unfolding trim
trim_ok = refl

pub if_empty : (s : String) → (if is_empty s then "" else s) ≡ s
if_empty [] = refl
if_empty (c ∷ s) = refl
