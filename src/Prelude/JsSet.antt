-- ===== src/Prelude/JsSet.antt =====
-- `Set<string>`: the members in insertion order, and `[...set].sort()`.
use Prim.Native.Nat.{ℕ, ◌+◌, compare, Ordering}
use Prim.Native.Char.{code}
use Prim.Native.String.{String, [] as end_of_text, ◌∷◌ as char_before}
use mathlib.Core.Path.{◌≡◌, refl}
use mathlib.Core.Logic.{ite}
use mathlib.Core.Bool.{Bool, true, false, ◌||◌}
use mathlib.Core.List.{List, [], ◌∷◌}
use native.Mathlib.Omega.{arith}
use mc_carto_live.Prelude.Tests.{string_discrete, ltb, leb, if◌then◌else◌}
use mc_carto_live.Prelude.Sort.{sort}

unfoldable pub has : String → List String → Bool
has k [] = false
has k (j ∷ s) = ite (string_discrete j k) true (has k s)

unfoldable pub add : String → List String → List String
add k [] = k ∷ []
add k (j ∷ s) = ite (string_discrete j k) (j ∷ s) (j ∷ add k s)

-- The members of `xs` added to `s` one after another.
unfoldable pub add_all : List String → List String → List String
unfolding add
add_all [] s = s
add_all (x ∷ xs) s = add_all xs (add x s)

-- `new Set(xs)`
abbrev pub of_list : List String → List String
of_list xs = add_all xs []

-- Where the code units of a character (UTF-16) stand: a character past 65535 begins with a unit from 55296 to
-- 56319, which is below the units from 57344 to 65535.
abbrev pub unit_rank : ℕ → ℕ
unit_rank c = if ltb c 57344 || leb 65536 c then c else c + 1114112

-- The order of `sort()` on texts, by code units.
abbrev pub string_le : String → String → Bool
string_le end_of_text t = true
string_le (char_before c s) end_of_text = false
string_le (char_before c s) (char_before d t) =
    elim (compare (unit_rank (code c)) (unit_rank (code d))) [
      | Ordering.lt ↦ true
      | Ordering.eq ↦ string_le s t
      | Ordering.gt ↦ false
    ]

abbrev pub sorted : List String → List String
sorted s = sort string_le s

pub has-add :
    (k j : String) (s : List String) → has j (add k s) ≡ ite (string_discrete k j) true (has j s)
unfolding has add
has-add k j [] = refl
has-add k j (i ∷ s) = ground (arith, has-add k j s)
