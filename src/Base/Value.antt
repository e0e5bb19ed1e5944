-- ===== src/Base/Value.antt =====
-- Values of the dynamic language, as JSON and the recorded evidence hold them. Floats are left out.
use Prim.Native.Nat.{ℕ, suc}
use Prim.Native.String.{String}
use mathlib.Core.Bool.{Bool, true, false, ◌&&◌}
use mathlib.Core.Option.{Option, none, some}
use mathlib.Core.Path.{◌≡◌, refl}
use native.Mathlib.Omega.{arith}
use ipa_diagnose.Base.Tests.{if◌then◌else◌, eqb, ◌==◌, string_eq}

-- `negsuc n` is -(n + 1).
pub data ℤ : Type 0 where
  pos : ℕ → ℤ
  negsuc : ℕ → ℤ

abbrev pub int_eq : ℤ → ℤ → Bool
int_eq (pos a) (pos b) = eqb a b
int_eq (negsuc a) (negsuc b) = eqb a b
int_eq _ _ = false

mutual
  pub data Value : Type 0 where
    null : Value
    boolean : Bool → Value
    number : ℤ → Value
    str : String → Value
    array : Items → Value
    dict : Fields → Value
    -- any other object, by its `str()`
    other : String → Value

  pub data Items : Type 0 where
    nil : Items
    cons : Value → Items → Items

  pub data Fields : Type 0 where
    end : Fields
    field : String → Value → Fields → Fields

unfoldable pub get_field : Fields → String → Option Value
unfolding string_eq
get_field end k = none
get_field (field j v fs) k = if k == j then some v else get_field fs k

unfoldable pub put_field : Fields → String → Value → Fields
unfolding string_eq
put_field end k v = field k v end
put_field (field j w fs) k v = if k == j then field j v fs else field j w (put_field fs k v)

unfoldable pub count_fields : Fields → ℕ
count_fields end = 0
count_fields (field k v fs) = suc (count_fields fs)

-- `True == 1` and `False == 0`
abbrev pub as_int : Value → Option ℤ
as_int (boolean true) = some (pos 1)
as_int (boolean false) = some (pos 0)
as_int (number n) = some n
as_int _ = none

abbrev pub same_int : Option ℤ → Option ℤ → Bool
same_int (some a) (some b) = int_eq a b
same_int _ _ = false

unfoldable mutual
  unfolding string_eq get_field count_fields

  -- `v == w`; two dicts are compared without regard to order.
  pub value_eq : Value → Value → Bool
  value_eq null w = elim w [ null ↦ true | _ ↦ false ]
  value_eq (boolean b) w = same_int (as_int (boolean b)) (as_int w)
  value_eq (number n) w = same_int (as_int (number n)) (as_int w)
  value_eq (str s) w = elim w [ str t ↦ s == t | _ ↦ false ]
  value_eq (array xs) w = elim w [ array ys ↦ items_eq xs ys | _ ↦ false ]
  value_eq (dict fs) w = elim w [
    | dict gs ↦ eqb (count_fields fs) (count_fields gs) && fields_eq fs gs
    | _ ↦ false
  ]
  value_eq (other s) w = elim w [ other t ↦ s == t | _ ↦ false ]

  pub items_eq : Items → Items → Bool
  items_eq nil ys = elim ys [ nil ↦ true | _ ↦ false ]
  items_eq (cons x xs) ys = elim ys [ nil ↦ false | cons y ys ↦ value_eq x y && items_eq xs ys ]

  pub fields_eq : Fields → Fields → Bool
  fields_eq end gs = true
  fields_eq (field k v fs) gs = elim (get_field gs k) [
    | none ↦ false
    | some w ↦ value_eq v w && fields_eq fs gs
  ]

pub get_field-put_field :
    (fs : Fields) (k j : String) (v : Value)
    → get_field (put_field fs k v) j ≡ (if j == k then some v else get_field fs j)
unfolding get_field put_field
get_field-put_field end k j v = refl
get_field-put_field (field i w fs) k j v = ground (arith, get_field-put_field fs k j v)
