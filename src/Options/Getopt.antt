-- ===== src/Options/Getopt.antt =====
-- shared/options.c: getopt_long_more. What getopt_long returns, call by call, is a parameter.
use ngnfs_progs.Prelude.{
  ℕ, zero, suc, ◌+◌, ◌*◌, ◌≤◌, ◌==◌, ◌&&◌, ◌||◌, not, if◌then◌else◌, Bool, true, false, Option,
  none, some, List, [], ◌∷◌, ◌++◌, length, length-append, arith,
}
use ngnfs_progs.Prelude.Errno.{Ret, ok, err, einval, enomem}
use ngnfs_progs.Prelude.Run.{Run, done, bug, ◌>>=◌}
use ngnfs_progs.Options.Parse.{Str, colon}

pub data HasArg : Type 0 where
  no_argument required_argument optional_argument : HasArg

pub record OptionMore : Type 0 where
  pub val : ℕ
  pub has_arg : HasArg
  pub required : Bool
  pub given : Bool

-- The characters 'h' and '?'.
abbrev pub help_char : ℕ
help_char = 104

abbrev pub unknown_char : ℕ
unknown_char = 63

abbrev pub opt_chars : OptionMore → Str
opt_chars more = more.val ∷ (elim more.has_arg [
  | no_argument ↦ []
  | required_argument ↦ colon ∷ []
  | optional_argument ↦ colon ∷ colon ∷ []
])

abbrev pub all_chars : List OptionMore → Str
all_chars [] = []
all_chars (more ∷ rest) = opt_chars more ++ all_chars rest

-- The bytes of the string that is built, its final 0 included.
unfoldable pub prepare_optstr : List OptionMore → Str
prepare_optstr moreopts = 43 ∷ colon ∷ help_char ∷ unknown_char ∷ (all_chars moreopts ++ (0 ∷ []))

-- What malloc is asked for.
abbrev pub optstr_size : List OptionMore → ℕ
optstr_size moreopts = 4 + length moreopts * 3 + 1

length-opt_chars : (more : OptionMore) → length (opt_chars more) ≤ 3
length-opt_chars more = go more.has_arg
  where
    go :
        (h : HasArg)
        → length (
            more.val ∷ (elim h [
              | no_argument ↦ []
              | required_argument ↦ colon ∷ []
              | optional_argument ↦ colon ∷ colon ∷ []
            ]))
          ≤ 3
    go no_argument = omega arith
    go required_argument = omega arith
    go optional_argument = omega arith

length-all_chars : (moreopts : List OptionMore) → length (all_chars moreopts) ≤ length moreopts * 3
length-all_chars [] = omega arith
length-all_chars (more ∷ rest) = omega (
  arith,
  length-opt_chars more,
  length-all_chars rest,
  length-append (opt_chars more) (all_chars rest),
)

-- The option string with its final 0 fits in the memory that is allocated for it.
pub prepare_optstr-fits :
    (moreopts : List OptionMore) → length (prepare_optstr moreopts) ≤ optstr_size moreopts
unfolding prepare_optstr
prepare_optstr-fits moreopts =
    omega (arith, length-all_chars moreopts, length-append (all_chars moreopts) (0 ∷ []))

-- The first option with the character; its position stands for the pointer.
unfoldable pub get_more : List OptionMore → ℕ → Option ℕ
get_more [] c = none
get_more (more ∷ rest) c =
    let later = get_more rest c in
    if more.val == c then some 0 else elim later [ none ↦ none | some i ↦ some (suc i) ]

abbrev pub set_given : ℕ → List OptionMore → List OptionMore
set_given i [] = []
set_given zero (more ∷ rest) = record more { given = true } ∷ rest
set_given (suc i) (more ∷ rest) = more ∷ set_given i rest

-- A call of getopt_long that did not return -1.
pub record Getopt : Type 0 where
  pub c : ℕ
  pub optopt : ℕ
  pub optarg : Str

-- The check behind the loop.
abbrev pub missing : List OptionMore → Bool
missing [] = false
missing (more ∷ rest) = (more.required && not more.given) || missing rest

module _ {A : Type 0} (func : A → ℕ → Str → Ret × A) where
  -- An option that is passed to the caller's function; a NULL `more` traps in the log
  -- of an error, and where the option is marked as given.
  abbrev pub call_func : Option ℕ → Ret × A → List OptionMore → Run (Ret × List OptionMore × A)
  call_func none r moreopts = bug
  call_func (some i) (err e, a) moreopts = done (err e, moreopts, a)
  call_func (some i) (ok n, a) moreopts = done (ok n, set_given i moreopts, a)

  -- A round of the loop. Logging a missing argument reads `more` as well.
  unfoldable pub option_round : Getopt → List OptionMore → A → Run (Ret × List OptionMore × A)
  option_round g moreopts a =
      let more = get_more moreopts (if g.c == colon then g.optopt else g.c) in
      if g.c == help_char || (g.c == unknown_char && g.optopt == 0) || g.c == unknown_char
      then done (err einval, moreopts, a)
      else if g.c == colon
      then elim more [ none ↦ bug | some i ↦ done (err einval, moreopts, a) ]
      else call_func more (func a g.c g.optarg) moreopts

  unfoldable pub option_loop : List Getopt → List OptionMore → A → Run (Ret × List OptionMore × A)
  option_loop [] moreopts a = done (if missing moreopts then err einval else ok 0, moreopts, a)
  option_loop (g ∷ gs) moreopts a = option_round g moreopts a >>= λ r. elim r.0 [
    | err e ↦ done (err e, r.1, r.2)
    | ok n ↦ option_loop gs r.1 r.2
  ]

  -- `memory` says whether the string is allocated; a failed calloc of the long options is not
  -- noticed and traps.
  unfoldable pub getopt_long_more :
      Bool → Bool → List Getopt → List OptionMore → A → Run (Ret × List OptionMore × A)
  getopt_long_more false longopts gs moreopts a = done (err enomem, moreopts, a)
  getopt_long_more true false gs moreopts a = bug
  getopt_long_more true true gs moreopts a = option_loop gs moreopts a
