-- ===== src/Main/Options.antt =====
-- What main makes of the command line.
use ben_eater.Common.{
  ◌≡◌, ◌⊎◌, refl, Bool, true, false, Option, none, some, List, [], ◌∷◌, Text, inl, inr,
}
use ben_eater.Main.{
  Opt, hex, list, break_symbol, question, other, Arguments, parse_options, no_arguments,
}

-- The options that main knows.
abbrev pub all_known : List Opt → Bool
all_known [] = true
all_known (hex optarg ∷ opts) = all_known opts
all_known (list optarg ∷ opts) = all_known opts
all_known (break_symbol optarg ∷ opts) = all_known opts
all_known (question ∷ opts) = false
all_known (other ∷ opts) = false

abbrev pub hex_argument : Opt → Option Text
hex_argument (hex optarg) = some optarg
hex_argument (list optarg) = none
hex_argument (break_symbol optarg) = none
hex_argument question = none
hex_argument other = none

abbrev pub list_argument : Opt → Option Text
list_argument (hex optarg) = none
list_argument (list optarg) = some optarg
list_argument (break_symbol optarg) = none
list_argument question = none
list_argument other = none

abbrev pub break_argument : Opt → Option Text
break_argument (hex optarg) = none
break_argument (list optarg) = none
break_argument (break_symbol optarg) = some optarg
break_argument question = none
break_argument other = none

-- The arguments given to one option, in order, and the last of them.
abbrev pub given : (Opt → Option Text) → List Opt → List Text
given argument [] = []
given argument (o ∷ opts) = elim (argument o) [
  | none ↦ given argument opts
  | some optarg ↦ optarg ∷ given argument opts
]

abbrev pub last_or : Option Text → List Text → Option Text
last_or before [] = before
last_or before (optarg ∷ rest) = last_or (some optarg) rest

abbrev pub last_arguments : Arguments → List Opt → Arguments
last_arguments a opts = record {
  hex_file_path = last_or a.hex_file_path (given hex_argument opts);
  list_file_path = last_or a.list_file_path (given list_argument opts);
  break_symbol_name = last_or a.break_symbol_name (given break_argument opts);
}

-- What `parse_options` comes to on `opts`.
abbrev pub Parsed : List Opt → Arguments → Option (Arguments × Text) → Type 0
Parsed opts a parsed =
    ((all_known opts ≡ true) × (out : Text) × (parsed ≡ some (last_arguments a opts, out)))
    ⊎ ((all_known opts ≡ false) × (parsed ≡ none))

Parsed-from :
    (opts : List Opt) (a : Arguments) (out : Text) → Parsed opts a (parse_options opts a out)
unfolding parse_options
Parsed-from [] a out = inl (refl, out, refl)
Parsed-from (hex optarg ∷ opts) a out =
    Parsed-from opts (record a { hex_file_path = some optarg }) _
Parsed-from (list optarg ∷ opts) a out =
    Parsed-from opts (record a { list_file_path = some optarg }) _
Parsed-from (break_symbol optarg ∷ opts) a out =
    Parsed-from opts (record a { break_symbol_name = some optarg }) _
Parsed-from (question ∷ opts) a out = inr (refl, refl)
Parsed-from (other ∷ opts) a out = inr (refl, refl)

-- Where every option is known, the three arguments are the last ones that their options were given,
-- and missing where an option was not given; where one is not known, main gets no arguments.
pub parse_options_lem :
    (opts : List Opt) → Parsed opts no_arguments (parse_options opts no_arguments [])
parse_options_lem opts = Parsed-from opts no_arguments []

-- The arguments of a command line whose options are known.
abbrev pub arguments_of : List Opt → Arguments
arguments_of = last_arguments no_arguments
