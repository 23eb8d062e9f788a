-- ===== src/Argv/Examples.antt =====
-- The theorems on the argument vectors, for a program with two arguments.
use user_level_checkpoint_re.Base.{
  ◌+◌, ◌≤◌, ◌<◌, ◌≡◌, refl, some, none, List, [], ◌∷◌, Bytes, codes, take, length, arith, str_ne,
  str_eq,
}
use user_level_checkpoint_re.Common.{copied}
use user_level_checkpoint_re.Cstring.{strtok}
use user_level_checkpoint_re.Cstring.Tokens.{spaced}
use user_level_checkpoint_re.Argv.{build_workload_argv, build_exec_argv}
use user_level_checkpoint_re.Argv.Bounds.{build_argv_lem, build_argv-spaced}

abbrev path : Bytes
path = codes "./bin/counter_demo"

abbrev args : List Bytes
args = codes "-n" ∷ codes "3" ∷ []

build_argv_lem_example :
    (2 ≤ 3
      → (argv : List Bytes) × (build_workload_argv path (spaced args) 3 ≡ some argv)
        × (argv ≡ path ∷ take 1 (strtok (copied 256 (spaced args))))
        × (length argv + 1 ≤ 3))
    × (build_exec_argv path (some (spaced args)) 3 ≡ build_workload_argv path (spaced args) 3)
    × (3 < 2 → build_workload_argv path (spaced args) 3 ≡ none)
build_argv_lem_example = build_argv_lem path (spaced args) 3

build_argv-spaced_example : build_exec_argv path (some (spaced args)) 32 ≡ some (path ∷ args)
unfolding str_eq
build_argv-spaced_example =
    build_argv-spaced path args
      ((str_ne (codes "-n") [] refl, refl), ((str_ne (codes "3") [] refl, refl), tt)) (omega arith)
      (omega arith)
