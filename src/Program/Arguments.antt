-- ===== src/Program/Arguments.antt =====
-- The arguments of the program (`main` in debugger/src/main.cpp), read one by one.
pub mod Line
use quick_js_debugger.Prelude.{
  ◌≡◌, Bool, true, false, List, [], ◌∷◌, Option, none, some, ◌||◌, ◌&&◌, not, if◌then◌else◌, ◌==◌,
}
use quick_js_debugger.Prelude.Int.{ℤ, pos}
use quick_js_debugger.Text.Bytes.{Bytes, codes, equal}
use quick_js_debugger.Text.Decimal.{stoi}

-- The variables that the arguments set.
pub record Options : Type 0 where
  pub port : ℤ
  pub inspect_brk : Bool
  pub inspect : Bool
  pub script_file : Bytes

abbrev pub default_options : Options
default_options = record { port = pos 9229; inspect_brk = false; inspect = false; script_file = [] }

-- The C library's `atoi`, which gives 0 where there is no number. A number that no int holds, where
-- it is undefined, is read as 0 too.
unfoldable pub atoi : Bytes → ℤ
atoi s = elim (stoi s) [ none ↦ pos 0 | some n ↦ n ]

-- `arg[0] == '-'`; behind an empty argument stands its terminator.
abbrev pub starts_dash : Bytes → Bool
starts_dash [] = false
starts_dash (c ∷ s) = c == b'-'

-- The branches behind that of `--port`; `none` is a request for help.
unfoldable pub take_argument : Bytes → Options → Option Options
take_argument a o =
    if equal a (codes "--inspect-brk")
    then some (record o { inspect_brk = true; inspect = true })
    else if equal a (codes "--inspect")
    then some (record o { inspect = true })
    else if equal a (codes "--help") || equal a (codes "-h")
    then none
    else if not (starts_dash a)
    then some (record o { script_file = a })
    else some o

-- The loop over the arguments behind the program's name. `--port` takes the argument behind it, and
-- is skipped like an unknown option where there is none.
unfoldable pub parse_arguments : Options → List Bytes → Option Options
unfolding take_argument
parse_arguments o [] = some o
parse_arguments o (a ∷ []) = take_argument a o
parse_arguments o (a ∷ b ∷ rest) = elim (equal a (codes "--port")) [
  | true ↦ parse_arguments (record o { port = atoi b }) rest
  | false ↦ elim (take_argument a o) [ none ↦ none | some o' ↦ parse_arguments o' (b ∷ rest) ]
]

-- `--inspect-brk` where neither option is given.
unfoldable pub default_inspect : Options → Options
default_inspect o =
    if not o.inspect && not o.inspect_brk
    then record o { inspect = true; inspect_brk = true }
    else o
