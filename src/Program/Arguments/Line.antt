-- ===== src/Program/Arguments/Line.antt =====
-- What a command line says: items, each of one or two arguments, in any order.
use quick_js_debugger.Prelude.{
  ℕ, ◌≤◌, ◌≡◌, refl, sym, ap, ◌∙◌, Bool, true, false, List, [], ◌∷◌, ◌++◌, none, some, ◌||◌,
  append_assoc, append-nil, All, arith,
}
use quick_js_debugger.Prelude.Int.{ℤ, pos}
use quick_js_debugger.Text.Bytes.{Bytes, codes, equal}
use quick_js_debugger.Text.Decimal.{nat_to_string, stoi, stoi-nat_to_string}
use quick_js_debugger.Program.Arguments.{Options, atoi, starts_dash, take_argument, parse_arguments}

pub data Item : Type 0 where
  port_option : ℕ → Item
  inspect_brk_option : Item
  inspect_option : Item
  script : Bytes → Item
  unknown_option : Bytes → Item

-- The arguments of an item.
abbrev pub arguments : Item → List Bytes
arguments (port_option n) = codes "--port" ∷ nat_to_string n ∷ []
arguments inspect_brk_option = codes "--inspect-brk" ∷ []
arguments inspect_option = codes "--inspect" ∷ []
arguments (script path) = path ∷ []
arguments (unknown_option name) = name ∷ []

-- A string that is none of the options.
pub record IsUnknown (name : Bytes) : Type 0 where
  pub dash : starts_dash name ≡ true
  pub no_port : equal name (codes "--port") ≡ false
  pub no_inspect_brk : equal name (codes "--inspect-brk") ≡ false
  pub no_inspect : equal name (codes "--inspect") ≡ false
  pub no_help : equal name (codes "--help") ≡ false
  pub no_h : equal name (codes "-h") ≡ false

abbrev pub IsItem : Item → Type 0
IsItem (port_option n) = n ≤ 2147483647
IsItem inspect_brk_option = Unit
IsItem inspect_option = Unit
IsItem (script path) = starts_dash path ≡ false
IsItem (unknown_option name) = IsUnknown name

abbrev pub line : List Item → List Bytes
line [] = []
line (i ∷ items) = arguments i ++ line items

-- The last port, the last script, and whether an option occurs.
abbrev pub last_port : ℤ → List Item → ℤ
last_port n [] = n
last_port n (port_option m ∷ items) = last_port (pos m) items
last_port n (_ ∷ items) = last_port n items

abbrev pub last_script : Bytes → List Item → Bytes
last_script path [] = path
last_script path (script other ∷ items) = last_script other items
last_script path (_ ∷ items) = last_script path items

abbrev pub asks_pause : Item → Bool
asks_pause inspect_brk_option = true
asks_pause _ = false

abbrev pub asks_inspect : Item → Bool
asks_inspect inspect_brk_option = true
asks_inspect inspect_option = true
asks_inspect _ = false

abbrev pub any_item : (Item → Bool) → List Item → Bool
any_item p [] = false
any_item p (i ∷ items) = p i || any_item p items

-- The options that a command line says, for those that are set where it says nothing.
unfoldable pub described : Options → List Item → Options
described o items = record {
  port = last_port o.port items;
  inspect_brk = o.inspect_brk || any_item asks_pause items;
  inspect = o.inspect || any_item asks_inspect items;
  script_file = last_script o.script_file items;
}

-- An argument that is no `--port` is taken alone.
parse_arguments-other :
    (a : Bytes) (rest : List Bytes) (o o' : Options)
    → equal a (codes "--port") ≡ false
    → take_argument a o ≡ some o'
    → parse_arguments o (a ∷ rest) ≡ parse_arguments o' rest
unfolding parse_arguments
parse_arguments-other a [] o o' h e = e
parse_arguments-other a (b ∷ rest) o o' h e = ground arith

-- What asks for help ends the loop.
parse_arguments-help :
    (a : Bytes) (rest : List Bytes) (o : Options)
    → equal a (codes "--port") ≡ false
    → take_argument a o ≡ none
    → parse_arguments o (a ∷ rest) ≡ none
unfolding parse_arguments
parse_arguments-help a [] o h e = e
parse_arguments-help a (b ∷ rest) o h e = ground arith

atoi-nat_to_string : (n : ℕ) → n ≤ 2147483647 → atoi (nat_to_string n) ≡ pos n
unfolding atoi
atoi-nat_to_string n h =
    ap (λ o. elim o as (λ _. ℤ) [ none ↦ pos 0 | some m ↦ m ])
      (ap stoi (sym (append-nil (nat_to_string n))) ∙ stoi-nat_to_string n [] refl h)

-- The options behind an item.
set_item : Item → Options → Options
set_item (port_option n) o = record o { port = pos n }
set_item inspect_brk_option o = record o { inspect_brk = true; inspect = true }
set_item inspect_option o = record o { inspect = true }
set_item (script path) o = record o { script_file = path }
set_item (unknown_option name) o = o

take_argument-script :
    (path : Bytes) (o : Options)
    → starts_dash path ≡ false
    → (equal path (codes "--port") ≡ false)
      × (take_argument path o ≡ some (record o { script_file = path }))
unfolding take_argument equal
take_argument-script [] o h = (refl, refl)
take_argument-script (c ∷ path) o h = ground arith

take_argument-unknown :
    (name : Bytes) (o : Options) → IsUnknown name → take_argument name o ≡ some o
unfolding take_argument
take_argument-unknown name o u = rw (u.no_inspect_brk, u.no_inspect, u.no_help, u.no_h, u.dash) refl

parse_arguments-item :
    (i : Item) (rest : List Bytes) (o : Options)
    → IsItem i
    → parse_arguments o (arguments i ++ rest) ≡ parse_arguments (set_item i o) rest
unfolding set_item equal take_argument
parse_arguments-item (port_option n) rest o h =
    unfold parse_arguments in rw (atoi-nat_to_string n h) refl
parse_arguments-item inspect_brk_option rest o h =
    parse_arguments-other (codes "--inspect-brk") rest o _ refl refl
parse_arguments-item inspect_option rest o h =
    parse_arguments-other (codes "--inspect") rest o _ refl refl
parse_arguments-item (script path) rest o h =
    let (e, f) = take_argument-script path o h in parse_arguments-other path rest o _ e f
parse_arguments-item (unknown_option name) rest o h =
    parse_arguments-other name rest o o h.no_port (take_argument-unknown name o h)

described-set_item :
    (i : Item) (items : List Item) (o : Options)
    → described (set_item i o) items ≡ described o (i ∷ items)
unfolding described set_item
described-set_item (port_option n) items o = refl
described-set_item inspect_brk_option items o = ground arith
described-set_item inspect_option items o = ground arith
described-set_item (script path) items o = refl
described-set_item (unknown_option name) items o = refl

parse_arguments-append :
    (items : List Item) (rest : List Bytes) (o : Options)
    → All IsItem items
    → parse_arguments o (line items ++ rest) ≡ parse_arguments (described o items) rest
parse_arguments-append [] rest o v = unfold described in ground arith
parse_arguments-append (i ∷ items) rest o (h, v) =
    ap (parse_arguments o) (append_assoc (arguments i) (line items) rest)
    ∙ parse_arguments-item i (line items ++ rest) o h
    ∙ parse_arguments-append items rest (set_item i o) v
    ∙ ap (λ p. parse_arguments p rest) (described-set_item i items o)

-- A command line made of options and scripts, in any order, sets what it says: the last port and
-- the last script, and each of the two options that occurs in it. Where it asks for help behind
-- that, whatever follows, no options are given.
pub parse_arguments-line :
    (items : List Item) (rest : List Bytes) (o : Options)
    → All IsItem items
    → (parse_arguments o (line items) ≡ some (described o items))
      × (parse_arguments o (line items ++ (codes "--help" ∷ rest)) ≡ none)
      × (parse_arguments o (line items ++ (codes "-h" ∷ rest)) ≡ none)
unfolding equal take_argument parse_arguments
parse_arguments-line items rest o v = (
  rw (append-nil (line items)) at (parse_arguments-append items [] o v),
  parse_arguments-append items (codes "--help" ∷ rest) o v
      ∙ parse_arguments-help (codes "--help") rest (described o items) refl refl,
  parse_arguments-append items (codes "-h" ∷ rest) o v
      ∙ parse_arguments-help (codes "-h") rest (described o items) refl refl,
)
