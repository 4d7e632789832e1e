-- ===== src/Runtime/Value.antt =====
-- Facts and their texts (crates/ke-runtime/src/value.rs). JSON input is left out: facts are given.
use Prim.Native.String.{◌++◌, slice, len}
use regulatory_rule_engine.Prelude.{
  ℕ, zero, suc, ◌-◌, ℤ, pos, negsuc, nat_abs, String, Bool, true, false, leb, Option, none, some,
  List, [], ◌∷◌, if◌then◌else◌, String_eq,
}
use regulatory_rule_engine.Ir.{ScalarValue, ScalarValues}

-- What the standard library does with numbers: `f64` with its equality and partial order, a cast from
-- `i128`, parsing, the texts `{f:?}` and the decimal digits of a natural number.
pub data Cmp : Type 0 where
  less equal greater : Cmp

pub record Floats (F : Type 0) : Type 0 where
  pub of_int : ℤ → F
  pub parse : String → Option F
  pub nan : F
  pub zero_f : F
  pub one_f : F
  pub eq_f : F → F → Bool
  pub partial_cmp : F → F → Option Cmp
  pub is_sign_negative : F → Bool
  pub debug : F → String
  pub digits_of : ℕ → String

mutual
  pub data FactValue (F : Type 0) : Type 0 where
    null : FactValue F
    bool : Bool → FactValue F
    int : ℤ → FactValue F
    float : F → FactValue F
    str : String → FactValue F
    list : FactValues F → FactValue F

  -- `Vec<FactValue>`
  pub data FactValues (F : Type 0) : Type 0 where
    nil : FactValues F
    cons : FactValue F → FactValues F → FactValues F

-- `BTreeMap::get`, as the function that it is.
abbrev pub Facts : Type 0 → Type 0
Facts F = String → Option (FactValue F)

abbrev or_null : {F : Type 0} → Option (FactValue F) → FactValue F
or_null none = FactValue.null
or_null (some v) = v

module _ {F : Type 0} where
  unfoldable pub lookup : Facts F → String → FactValue F
  lookup facts field = or_null (facts field)

  unfoldable pub is_present : FactValue F → Bool
  is_present FactValue.null = false
  is_present _ = true

-- `"0".repeat(n)`
abbrev zeros : ℕ → String
zeros zero = ""
zeros (suc n) = "0" ++ zeros n

abbrev negative : ℤ → Bool
negative (pos n) = false
negative (negsuc n) = true

abbrev join : List String → String
join [] = ""
join (s ∷ []) = s
join (s ∷ t ∷ ts) = s ++ ", " ++ join (t ∷ ts)

module _ {F : Type 0} (f : Floats F) where
  unfoldable pub as_number : FactValue F → Option F
  as_number (FactValue.int i) = some (f.of_int i)
  as_number (FactValue.float x) = some x
  as_number (FactValue.bool b) = some (if b then f.one_f else f.zero_f)
  as_number _ = none

  abbrev pub sign_text : ℤ → String
  sign_text m = if negative m then "-" else ""

  -- `i.to_string()` on an `i128`.
  abbrev pub int_text : ℤ → String
  int_text i = sign_text i ++ f.digits_of (nat_abs i)

  unfoldable pub python_float_str : F → String
  python_float_str x =
      if f.eq_f x f.zero_f then (if f.is_sign_negative x then "-0.0" else "0.0") else f.debug x

  -- With a positive scale: digits before the point, or zeros in front.
  abbrev pub pointed : String → String → ℕ → String
  pointed sign digits scale =
      if leb (len digits) scale
      then sign ++ "0." ++ zeros (scale - len digits) ++ digits
      else (let point = len digits - scale in
          sign ++ slice digits 0 point ++ "." ++ slice digits point (len digits))

  unfoldable pub decimal_to_string : ℤ → ℤ → String
  decimal_to_string mantissa (negsuc k) =
      sign_text mantissa ++ f.digits_of (nat_abs mantissa) ++ zeros (suc k)
  decimal_to_string mantissa (pos zero) = sign_text mantissa ++ f.digits_of (nat_abs mantissa)
  decimal_to_string mantissa (pos (suc k)) =
      pointed (sign_text mantissa) (f.digits_of (nat_abs mantissa)) (suc k)

  abbrev pub or_nan : Option F → F
  or_nan none = f.nan
  or_nan (some x) = x

  unfoldable pub decimal_to_f64 : ℤ → ℤ → F
  unfolding decimal_to_string
  decimal_to_f64 mantissa scale = or_nan (f.parse (decimal_to_string mantissa scale))

  unfoldable pub operand_as_number : ScalarValue → Option F
  unfolding decimal_to_f64
  operand_as_number (ScalarValue.decimal mantissa scale) = some (decimal_to_f64 mantissa scale)
  operand_as_number (ScalarValue.bool b) = some (if b then f.one_f else f.zero_f)
  operand_as_number _ = none

  -- `repr()` of an element of a list, from its `str()`.
  abbrev pub python_repr_fact : FactValue F → String → String
  python_repr_fact (FactValue.str s) text = "'" ++ s ++ "'"
  python_repr_fact _ text = text

  abbrev pub python_repr_scalar : ScalarValue → String → String
  python_repr_scalar (ScalarValue.str s) text = "'" ++ s ++ "'"
  python_repr_scalar _ text = text

  unfoldable mutual
    unfolding python_float_str

    pub python_str_fact : FactValue F → String
    python_str_fact FactValue.null = "None"
    python_str_fact (FactValue.bool b) = if b then "True" else "False"
    python_str_fact (FactValue.int i) = int_text i
    python_str_fact (FactValue.float x) = python_float_str x
    python_str_fact (FactValue.str s) = s
    python_str_fact (FactValue.list items) = "[" ++ join (python_reprs_fact items) ++ "]"

    pub python_reprs_fact : FactValues F → List String
    python_reprs_fact FactValues.nil = []
    python_reprs_fact (FactValues.cons v vs) =
        python_repr_fact v (python_str_fact v) ∷ python_reprs_fact vs

  -- A decimal with a positive scale is a Python float, any other one an integer.
  unfoldable pub decimal_text : ℤ → ℤ → String
  unfolding decimal_to_string decimal_to_f64 python_float_str
  decimal_text mantissa (pos (suc k)) = python_float_str (decimal_to_f64 mantissa (pos (suc k)))
  decimal_text mantissa (pos zero) = decimal_to_string mantissa (pos zero)
  decimal_text mantissa (negsuc k) = decimal_to_string mantissa (negsuc k)

  unfoldable mutual
    unfolding decimal_text

    pub python_str_scalar : ScalarValue → String
    python_str_scalar (ScalarValue.str s) = s
    python_str_scalar (ScalarValue.bool b) = if b then "True" else "False"
    python_str_scalar (ScalarValue.decimal mantissa scale) = decimal_text mantissa scale
    python_str_scalar (ScalarValue.list items) = "[" ++ join (python_reprs_scalar items) ++ "]"

    pub python_reprs_scalar : ScalarValues → List String
    python_reprs_scalar ScalarValues.nil = []
    python_reprs_scalar (ScalarValues.cons v vs) =
        python_repr_scalar v (python_str_scalar v) ∷ python_reprs_scalar vs
