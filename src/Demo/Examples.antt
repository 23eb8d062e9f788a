-- ===== src/Demo/Examples.antt =====
-- The theorem on the workload's count, on three passes and two more.
use user_level_checkpoint_re.Base.{◌≡◌, true, false, none, [], ◌∷◌, ◌++◌, List, Bytes, codes}
use user_level_checkpoint_re.Base.Int.{pos}
use user_level_checkpoint_re.Runtime.{Boot}
use user_level_checkpoint_re.Demo.{run_demo}
use user_level_checkpoint_re.Demo.Resumed.{left_by, restored_once, run_demo-resumes}

abbrev before : List Bytes
before = codes "10:00:00" ∷ codes "10:00:01" ∷ codes "10:00:02" ∷ []

abbrev behind : List Bytes
behind = codes "11:00:00" ∷ codes "11:00:01" ∷ []

run_demo-resumes_example :
    left_by (
      run_demo
        (pos 8)
        Boot.restored
        (left_by (run_demo (pos 7) Boot.fresh none true before))
        false
        behind)
    ≡ restored_once (left_by (run_demo (pos 9) Boot.fresh none true (before ++ behind)))
run_demo-resumes_example = run_demo-resumes (pos 7) (pos 8) (pos 9) none none false before behind
