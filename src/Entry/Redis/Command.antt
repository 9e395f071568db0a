-- ===== src/Entry/Redis/Command.antt =====
-- entry/redisCommand.go: the name and the arguments of a command; entry/redisValidate.go: the rules
-- that a command is checked against.
use uq.Prelude.{
  ℕ, zero, suc, ◌-◌, Bytes, codes, List, [], ◌∷◌, ◌++◌, Bool, true, ◌&&◌, if◌then◌else◌, Option,
  none, some, ℤ, ltb, leb, length, map, Dict, lookup,
}
use uq.Utils.Errors.{Result, ok, err}
use uq.Utils.Strings.{atoi, join, format_uint, contains_any}
use uq.Entry.{Runtime}
use uq.Entry.Redis.Session.{Command}

-- The argument at an index that is not negative.
unfoldable pub nth : ℕ → List Bytes → Option Bytes
nth i [] = none
nth zero (arg ∷ args) = some arg
nth (suc i) (arg ∷ args) = nth i args

unfoldable pub upper : ℕ → ℕ
upper c = if leb b'a' c && leb c b'z' then c - 32 else c

unfoldable pub ascii : Bytes → Bool
ascii [] = true
ascii (c ∷ s) = ltb c 128 && ascii s

-- bytes.ToUpper
unfoldable pub to_upper : Runtime → Bytes → Bytes
unfolding upper ascii
to_upper go s = if ascii s then map upper s else go.to_upper_other s

-- name, which panics on a command without arguments.
unfoldable pub name : Runtime → Command → Option Bytes
name go cmd = elim (nth 0 cmd.args) [ none ↦ none | some arg ↦ some (to_upper go arg) ]

-- stringAtIndex
unfoldable pub string_at : ℕ → Command → Bytes
string_at i cmd = elim (nth i cmd.args) [ none ↦ [] | some arg ↦ arg ]

unfoldable pub out_of_range : ℕ → Command → Bytes
out_of_range i cmd =
    codes "out of range " ++ (format_uint i ++ (codes "/" ++ format_uint (length cmd.args)))

-- argAtIndex and intAtIndex: the error is its text.
unfoldable pub arg_at : ℕ → Command → Result Bytes Bytes
unfolding out_of_range
arg_at i cmd = elim (nth i cmd.args) [ none ↦ err (out_of_range i cmd) | some arg ↦ ok arg ]

unfoldable pub int_at : Runtime → ℕ → Command → Result Bytes ℤ
unfolding out_of_range
int_at go i cmd = elim (nth i cmd.args) [
  | none ↦ err (out_of_range i cmd)
  | some arg ↦ elim (atoi arg) [ none ↦ err (go.atoi_error arg) | some n ↦ ok n ]
]

-- args[n:], which panics on fewer arguments.
unfoldable pub args_from : ℕ → List Bytes → Option (List Bytes)
args_from zero args = some args
args_from (suc n) [] = none
args_from (suc n) (arg ∷ args) = args_from n args

-- String
unfoldable pub command_text : Command → Bytes
command_text cmd = join (codes " ") cmd.args

-- The least and the greatest count of arguments; `none` is no bound.
pub record Rule : Type 0 where
  pub min_count : Option ℕ
  pub max_count : Option ℕ

abbrev pub rule : ℕ → Option ℕ → Rule
rule lo hi = record { min_count = some lo; max_count = hi }

-- cmdrules
abbrev pub command_rules : Dict Rule
command_rules =
    (codes "ADD", rule 2 (some 3))
    ∷ (codes "QADD", rule 2 (some 3))
    ∷ (codes "SET", rule 3 (some 3))
    ∷ (codes "QPUSH", rule 3 (some 3))
    ∷ (codes "MSET", rule 3 none)
    ∷ (codes "QMPUSH", rule 3 none)
    ∷ (codes "GET", rule 2 (some 2))
    ∷ (codes "QPOP", rule 2 (some 2))
    ∷ (codes "MGET", rule 3 none)
    ∷ (codes "QMPOP", rule 3 none)
    ∷ (codes "DEL", rule 2 (some 2))
    ∷ (codes "QDEL", rule 2 (some 2))
    ∷ (codes "MDEL", rule 2 none)
    ∷ (codes "QMDEL", rule 2 none)
    ∷ (codes "EMPTY", rule 2 (some 2))
    ∷ (codes "QEMPTY", rule 2 (some 2))
    ∷ (codes "INFO", rule 2 (some 2))
    ∷ (codes "QINFO", rule 2 (some 2))
    ∷ []

abbrev pub bad_command : Bytes
bad_command = codes "bad command"

abbrev pub wrong_argument_count : Bytes
wrong_argument_count = codes "wrong argument count"

abbrev pub wrong_command_key : Bytes
wrong_command_key = codes "wrong command key"

unfoldable pub at_least : Option ℕ → ℕ → Bool
at_least none n = true
at_least (some lo) n = leb lo n

unfoldable pub at_most : Option ℕ → ℕ → Bool
at_most none n = true
at_most (some hi) n = leb n hi

-- The two tests of a rule.
unfoldable pub allows : Rule → ℕ → Bool
unfolding at_least at_most
allows r n = at_least r.min_count n && at_most r.max_count n

unfoldable pub verify_key : Command → Result Bytes (Unit {0})
verify_key cmd =
    if ltb 1 (length cmd.args) && contains_any (string_at 1 cmd) (codes "#[] ")
    then err wrong_command_key
    else ok tt

-- verifyCommand: a command with a name that has no rule passes.
unfoldable pub verify_command : Runtime → Command → Result Bytes (Unit {0})
unfolding allows verify_key
verify_command go cmd = elim (name go cmd) [
  | none ↦ err bad_command
  | some n ↦ elim (lookup n command_rules) [
    | none ↦ ok tt
    | some r ↦ if allows r (length cmd.args) then verify_key cmd else err wrong_argument_count
  ]
]
