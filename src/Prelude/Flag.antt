-- ===== src/Prelude/Flag.antt =====
-- Package flag: a FlagSet that holds the variables it writes to, and Parse. strconv.ParseInt is a
-- parameter.
use onetimelink.Prelude.{
  List, Option, Bool, ◌∷◌, [], ◌++◌, none, some, true, false, if◌then◌else◌, ◌==◌, ◌||◌,
}
use onetimelink.Prelude.Int.{ℤ}
use onetimelink.Prelude.Result.{Result, err, ok}
use onetimelink.Prelude.Text.{Bytes, utf8, str_eq}

-- What a flag's value is, with the assignment to its variable.
pub data Setter (F : Type 0) : Type 0 where
  string_value : (Bytes → F → F) → Setter F
  bool_value : (Bool → F → F) → Setter F
  int_value : (ℤ → F → F) → Setter F

pub record Flag (F : Type 0) : Type 0 where
  pub name : Bytes
  pub usage : Bytes
  pub setter : Setter F

pub record FlagSet (F : Type 0) : Type 0 where
  pub formal : List (Flag F)
  pub vars : F

pub data FlagError : Type 0 where
  help_requested : FlagError
  bad_syntax : Bytes → FlagError
  not_defined : Bytes → FlagError
  needs_argument : Bytes → FlagError
  invalid_value : Bytes → Bytes → FlagError

-- StringVar, BoolVar and IntVar: the variable gets the default when the flag is defined.
abbrev pub string_flag :
    {F : Type 0} → FlagSet F → (Bytes → F → F) → Bytes → Bytes → Bytes → FlagSet F
string_flag fs p name value usage = record {
  formal = fs.formal ++ (record { name = name; usage = usage; setter = string_value p } ∷ []);
  vars = p value fs.vars;
}

abbrev pub bool_flag : {F : Type 0} → FlagSet F → (Bool → F → F) → Bytes → Bool → Bytes → FlagSet F
bool_flag fs p name value usage = record {
  formal = fs.formal ++ (record { name = name; usage = usage; setter = bool_value p } ∷ []);
  vars = p value fs.vars;
}

abbrev pub int_flag : {F : Type 0} → FlagSet F → (ℤ → F → F) → Bytes → ℤ → Bytes → FlagSet F
int_flag fs p name value usage = record {
  formal = fs.formal ++ (record { name = name; usage = usage; setter = int_value p } ∷ []);
  vars = p value fs.vars;
}

unfoldable pub find_flag : {F : Type 0} → Bytes → List (Flag F) → Option (Flag F)
find_flag name [] = none
find_flag name (f ∷ fs) =
    let rest = find_flag name fs in if str_eq f.name name then some f else rest

unfoldable pub one_of : Bytes → List Bytes → Bool
one_of s [] = false
one_of s (t ∷ ts) = str_eq s t || one_of s ts

-- strconv.ParseBool.
unfoldable pub parse_bool : Bytes → Option Bool
parse_bool s =
    if one_of s (utf8 "1" ∷ utf8 "t" ∷ utf8 "T" ∷ utf8 "true" ∷ utf8 "TRUE" ∷ utf8 "True" ∷ [])
    then some true
    else if one_of s
        (utf8 "0" ∷ utf8 "f" ∷ utf8 "F" ∷ utf8 "false" ∷ utf8 "FALSE" ∷ utf8 "False" ∷ [])
    then some false
    else none

-- The name before the first equals sign and, if there is one, the value behind it.
unfoldable pub cut_value : Bytes → Bytes × Option Bytes
cut_value [] = ([], none)
cut_value (c ∷ s) =
    let (name, value) = cut_value s in if c == 61 then ([], some s) else (c ∷ name, value)

-- What an argument is.
pub data Argument : Type 0 where
  operand : Argument  -- it and all that follow are left over
  terminator : Argument  -- "--"
  malformed : Argument
  names : Bytes → Option Bytes → Argument

unfoldable pub read_name : Bytes → Argument
read_name [] = malformed
read_name (c ∷ s) =
    let (name, value) = cut_value s in
    if c == 45 || c == 61 then malformed else names (c ∷ name) value

unfoldable pub read_argument : Bytes → Argument
read_argument [] = operand
read_argument (c ∷ []) = operand
read_argument (c ∷ d ∷ s) =
    if c == 45
    then (if d == 45
        then elim s [ [] ↦ terminator | e ∷ rest ↦ read_name (e ∷ rest) ]
        else read_name (d ∷ s))
    else operand

-- What Parse does after an argument: it goes on, waits for the value of a flag, or is at its end.
pub data Next (F : Type 0) : Type 0 where
  proceeds : F → Next F
  awaits : Flag F → Next F
  stops_before : Next F
  stops_after : Next F
  fails : FlagError → Next F

module _ {F : Type 0} (parse_int : Bytes → Option ℤ) where
  unfoldable pub assign : Flag F → Bytes → F → Next F
  assign f value vars = elim f.setter [
    | string_value p ↦ proceeds (p value vars)
    | bool_value p ↦ elim (parse_bool value) [
      | none ↦ fails (invalid_value value f.name)
      | some b ↦ proceeds (p b vars)
    ]
    | int_value p ↦ elim (parse_int value) [
      | none ↦ fails (invalid_value value f.name)
      | some n ↦ proceeds (p n vars)
    ]
  ]

  -- A boolean flag needs no value; every other takes the next argument for one that it lacks.
  unfoldable pub apply_flag : Flag F → Option Bytes → F → Next F
  apply_flag f (some value) vars = assign f value vars
  apply_flag f none vars = elim f.setter [
    | bool_value p ↦ proceeds (p true vars)
    | string_value p ↦ awaits f
    | int_value p ↦ awaits f
  ]

  unfoldable pub next_step : List (Flag F) → Bytes → F → Next F
  next_step formal s vars = elim (read_argument s) [
    | operand ↦ stops_before
    | terminator ↦ stops_after
    | malformed ↦ fails (bad_syntax s)
    | names name value ↦ elim (find_flag name formal) [
      | none ↦
          fails
            (if one_of name (utf8 "help" ∷ utf8 "h" ∷ []) then help_requested else not_defined name)
      | some f ↦ apply_flag f value vars
    ]
  ]

  -- The loop of Parse, with the flag that waits for a value, if one does.
  unfoldable pub parse_from :
      List (Flag F) → Option (Flag F) → List Bytes → F → Result FlagError (F × List Bytes)
  parse_from formal none [] vars = ok (vars, [])
  parse_from formal (some f) [] vars = err (needs_argument f.name)
  parse_from formal none (s ∷ args) vars = elim (next_step formal s vars) [
    | proceeds vars' ↦ parse_from formal none args vars'
    | awaits f ↦ parse_from formal (some f) args vars
    | stops_before ↦ ok (vars, s ∷ args)
    | stops_after ↦ ok (vars, args)
    | fails e ↦ err e
  ]
  parse_from formal (some f) (s ∷ args) vars = elim (assign f s vars) [
    | proceeds vars' ↦ parse_from formal none args vars'
    | awaits g ↦ parse_from formal (some g) args vars
    | stops_before ↦ ok (vars, args)
    | stops_after ↦ ok (vars, args)
    | fails e ↦ err e
  ]

  -- The variables after Parse, and the arguments that it leaves.
  abbrev pub parse : FlagSet F → List Bytes → Result FlagError (F × List Bytes)
  parse fs args = parse_from fs.formal none args fs.vars
