-- ===== src/Analyze/Options.antt =====
-- src/analyze.rs: the arguments, `parse_args`.
use tperf.Common.{
  List, [], ◌∷◌, Option, none, some, ◌||◌, Text, codes, text_eq, ◌==◌, if◌then◌else◌, Result, ok,
  err,
}
use tperf.NetUtil.{is_empty}

pub data ArgsError : Type 0 where
  path_required : ArgsError
  help : ArgsError
  unexpected : Text → ArgsError
  missing_db : ArgsError

-- `a.strip_prefix("--db=")`, by its characters.
unfoldable pub strip_prefix : Text → Text → Option Text
strip_prefix [] s = some s
strip_prefix (p ∷ prefix) [] = none
strip_prefix (p ∷ prefix) (c ∷ s) = if p == c then strip_prefix prefix s else none

-- What an argument is.
pub data Flag : Type 0 where
  separate : Flag
  joined : Text → Flag
  empty_path : Flag
  wants_help : Flag
  stray : Flag

unfoldable pub flag_of : Text → Flag
unfolding strip_prefix text_eq is_empty
flag_of a = if text_eq a (codes "--db") then separate else elim (strip_prefix (codes "--db=") a) [
  | some path ↦ if is_empty path then empty_path else joined path
  | none ↦ if text_eq a (codes "-h") || text_eq a (codes "--help") then wants_help else stray
]

-- The loop of `parse_args`, on the arguments from index `i` on.
unfoldable pub args_loop : Option Text → List Text → Result ArgsError Text
unfolding flag_of
args_loop none [] = err missing_db
args_loop (some path) [] = ok path
args_loop db (a ∷ []) = elim (flag_of a) [
  | separate ↦ err path_required
  | joined path ↦ ok path
  | empty_path ↦ err path_required
  | wants_help ↦ err help
  | stray ↦ err (unexpected a)
]
args_loop db (a ∷ b ∷ args) = elim (flag_of a) [
  | separate ↦ args_loop (some b) args
  | joined path ↦ args_loop (some path) (b ∷ args)
  | empty_path ↦ err path_required
  | wants_help ↦ err help
  | stray ↦ err (unexpected a)
]

unfoldable pub parse_args : List Text → Result ArgsError Text
unfolding args_loop
parse_args args = args_loop none args
