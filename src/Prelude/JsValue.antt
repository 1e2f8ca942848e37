-- ===== src/Prelude/JsValue.antt =====
-- Values as `JSON.parse` gives them, and the conversions of the language: `String(v ?? '')`, `Number(v)`,
-- `typeof v === 'object'`, a read of a field. `undefined` is the value of a field that is not there;
-- `JSON.stringify` leaves out a field that has it, so a field with it and no field are the same.
use Prim.Native.Nat.{ℕ}
use Prim.Native.String.{String, ◌++◌ as str_append}
use mathlib.Core.Logic.{ite}
use mathlib.Core.Bool.{Bool, true, false, ◌&&◌}
use mathlib.Core.Option.{Option, none, some}
use mathlib.Core.List.{List, [], ◌∷◌}
use mc_carto_live.Prelude.Tests.{string_discrete, if◌then◌else◌}

-- The finite numbers and what the language does with them: `Number(s)` of a text, where it is
-- finite, `String(n)`, the numerals, `+`, `-`, `Math.max` and `<=`.
pub record JsNumbers (N : Type 0) : Type 0 where
  pub of_string : String → Option N
  pub to_string : N → String
  pub numeral : ℕ → N
  pub add : N → N → N
  pub sub : N → N → N
  pub max : N → N → N
  pub le : N → N → Bool

-- `infinity negative`: JSON reads a numeral that is too large as infinity.
mutual
  pub data Value (N : Type 0) : Type 0 where
    undefined null : Value N
    boolean : Bool → Value N
    number : N → Value N
    infinity : Bool → Value N
    string : String → Value N
    array : Values N → Value N
    object : Fields N → Value N

  pub data Values (N : Type 0) : Type 0 where
    no_values : Values N
    values : Value N → Values N → Values N

  pub data Fields (N : Type 0) : Type 0 where
    no_fields : Fields N
    field : String → Value N → Fields N → Fields N

module _ {N : Type 0} where
  unfoldable pub find : String → Fields N → Value N
  find key no_fields = undefined
  find key (field k v fs) = ite (string_discrete k key) v (find key fs)

  -- `v.key`, for a key that no built-in object has.
  unfoldable pub get : String → Value N → Value N
  unfolding find
  get key (object fs) = find key fs
  get key v = undefined

  -- `v && typeof v === 'object'`
  abbrev pub is_object : Value N → Bool
  is_object (array vs) = true
  is_object (object fs) = true
  is_object v = false

  -- `v === true`
  abbrev pub is_true : Value N → Bool
  is_true (boolean b) = b
  is_true v = false

  -- No object within has a field `toString`. `String` and `Number` of an object that has one throw a
  -- TypeError, since what JSON gives for it cannot be called; the texts and numbers below are for values
  -- of which this holds.
  unfoldable mutual
    pub is_plain : Value N → Bool
    is_plain (array vs) = are_plain vs
    is_plain (object fs) = have_plain fs
    is_plain v = true

    pub are_plain : Values N → Bool
    are_plain no_values = true
    are_plain (values v vs) = is_plain v && are_plain vs

    pub have_plain : Fields N → Bool
    have_plain no_fields = true
    have_plain (field k v fs) =
        ite (string_discrete k "toString") false true && is_plain v && have_plain fs

  -- `a ?? b`
  abbrev pub coalesce : Value N → Value N → Value N
  coalesce undefined b = b
  coalesce null b = b
  coalesce a b = a

abbrev pub boolean_text : Bool → String
boolean_text b = if b then "true" else "false"

abbrev pub infinity_text : Bool → String
infinity_text negative = if negative then "-Infinity" else "Infinity"

module _ {N : Type 0} (js : JsNumbers N) where
  unfoldable mutual
    -- An item of an array, as `join` writes it, for a plain value.
    pub item_text : Value N → String
    item_text undefined = ""
    item_text null = ""
    item_text (boolean b) = boolean_text b
    item_text (number n) = js.to_string n
    item_text (infinity negative) = infinity_text negative
    item_text (string s) = s
    item_text (array vs) = array_text vs
    item_text (object fs) = "[object Object]"

    pub array_text : Values N → String
    array_text no_values = ""
    array_text (values v vs) = str_append (item_text v) (join_rest vs)

    pub join_rest : Values N → String
    join_rest no_values = ""
    join_rest (values v vs) = str_append "," (str_append (item_text v) (join_rest vs))

  -- `String(v ?? '')`, for a plain value.
  abbrev pub text_of : Value N → String
  text_of v = item_text v

  -- `Number(v)` of a plain value, where it is finite.
  unfoldable pub number_of : Value N → Option N
  unfolding item_text
  number_of undefined = none
  number_of null = some (js.numeral 0)
  number_of (boolean b) = some (js.numeral (if b then 1 else 0))
  number_of (number n) = some n
  number_of (infinity b) = none
  number_of (string s) = js.of_string s
  number_of (array vs) = js.of_string (array_text vs)
  number_of (object fs) = none

module _ {N : Type 0} {A : Type 0} (f : A → Value N) where
  abbrev pub of_option : Option A → Value N
  of_option none = undefined
  of_option (some a) = f a

  abbrev pub of_list : List A → Values N
  of_list [] = no_values
  of_list (x ∷ xs) = values (f x) (of_list xs)
