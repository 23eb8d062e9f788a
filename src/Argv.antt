-- ===== src/Argv.antt =====
-- The argument vectors of src/manager.c and src/snapshot.c.
pub mod Bounds
mod Examples
use user_level_checkpoint_re.Base.{
  ℕ, ◌+◌, ◌-◌, Bool, true, false, Option, none, some, List, [], ◌∷◌, ◌++◌, if◌then◌else◌, ltb,
  Bytes, length,
}
use user_level_checkpoint_re.Cstring.{strtok}
use user_level_checkpoint_re.Common.{copied}

-- `while (token != NULL && argc + 1 < max_args)`: the tokens that are stored behind `argc` others.
unfoldable pub store_tokens : ℕ → ℕ → List Bytes → List Bytes
store_tokens max_args argc [] = []
store_tokens max_args argc (token ∷ tokens) =
    let rest = store_tokens max_args (argc + 1) tokens in
    if ltb (argc + 1) max_args then token ∷ rest else []

-- `build_workload_argv`: the strings before the NULL, or `none` for -1.
unfoldable pub build_workload_argv : Bytes → Bytes → ℕ → Option (List Bytes)
unfolding store_tokens
build_workload_argv workload_path workload_args max_args =
    if ltb max_args 2
    then none
    else some (workload_path ∷ store_tokens max_args 1 (strtok (copied 256 workload_args)))

copy_if_given : Option Bytes → Bytes
copy_if_given none = []
copy_if_given (some args) = copied 256 args

-- `build_exec_argv`, whose arguments may be NULL.
unfoldable pub build_exec_argv : Bytes → Option Bytes → ℕ → Option (List Bytes)
unfolding store_tokens copy_if_given
build_exec_argv workload_path workload_args max_args =
    if ltb max_args 2
    then none
    else some (workload_path ∷ store_tokens max_args 1 (strtok (copy_if_given workload_args)))
