-- ===== src/Paths/Exact.antt =====
-- The paths of src/config.c with a root and a name that are not too long.
use user_level_checkpoint_re.Base.{
  ℕ, ◌+◌, ◌-◌, ◌≤◌, ◌<◌, ◌≡◌, ◌∙◌, ap, ◌∷◌, ◌++◌, Bytes, codes, length, length-append, take,
  take-append_le, append-nil, arith, Status,
}
use user_level_checkpoint_re.Common.{max_path, joined}
use user_level_checkpoint_re.Common.Buffers.{copied_fits, formatted_fits, formatted_long}
use user_level_checkpoint_re.Config.{Config}
use user_level_checkpoint_re.Paths.{RuntimePaths, prepare_runtime_paths}

infixl 66 ◌</>◌
-- A path and a name in the directory that it leads to.
abbrev pub ◌</>◌ : Bytes → Bytes → Bytes
dir </> name = dir ++ b'/' ∷ name

pub length-slash : (dir name : Bytes) → length (dir </> name) ≡ length dir + length name + 1
length-slash dir name = omega (arith, length-append dir (b'/' ∷ name))

pub joined_fits :
    (size : ℕ) (dir name : Bytes)
    → length dir + length name + 1 < size
    → joined size dir name ≡ dir </> name
unfolding joined
joined_fits size dir name h =
    ap (λ (r : Bytes × Status). r.0)
      (formatted_fits size (dir </> name) (omega (arith, length-slash dir name)))

-- A directory that fills its array leaves no room for the name.
pub joined_full : (size : ℕ) (dir name : Bytes) → length dir + 1 ≡ size → joined size dir name ≡ dir
unfolding joined
joined_full size dir name h =
    ap (λ (r : Bytes × Status). r.0)
      (formatted_long size (dir </> name) (omega (arith, length-slash dir name)))
    ∙ take-append_le (size - 1) dir (b'/' ∷ name) (omega arith)
    ∙ ap (λ k. dir ++ take k (b'/' ∷ name)) no_room
    ∙ append-nil dir
  where
    no_room : size - 1 - length dir ≡ 0
    no_room = omega arith

-- The paths without any limit.
abbrev pub whole_paths : Config → RuntimePaths
whole_paths c =
    let root = c.runtime_root in
    let name = c.process_name in
    let process_dir = root </> codes "processes" </> name in
    let checkpoints_dir = root </> codes "checkpoints" </> name in
    record {
      runtime_dir = root;
      state_dir = root </> codes "state";
      logs_dir = root </> codes "logs";
      process_dir = process_dir;
      checkpoints_dir = checkpoints_dir;
      checkpoint_slot_a_dir = checkpoints_dir </> codes "slot_A";
      checkpoint_slot_b_dir = checkpoints_dir </> codes "slot_B";
      checkpoint_meta_file = checkpoints_dir </> codes "active.meta";
      checkpoint_lock_file = checkpoints_dir </> codes "checkpoint.lock";
      state_file = root </> codes "state" </> (name ++ codes ".state");
      pid_file = process_dir </> codes "pid";
      status_file = process_dir </> codes "status.txt";
      process_log = process_dir </> codes "process.log";
      monitor_log = root </> codes "logs" </> (name ++ codes "-monitor.log");
    }

-- Room for the root, the name and 29 bytes more, the longest of the fixed parts.
abbrev pub FitsPaths : Config → Type 0
FitsPaths c = length c.runtime_root + length c.process_name + 29 < max_path

module _ (c : Config) (h : FitsPaths c) where
  abbrev root : Bytes
  root = c.runtime_root

  abbrev name : Bytes
  name = c.process_name

  below_root : (part : Bytes) → length part ≤ 11 → joined max_path root part ≡ root </> part
  below_root part k = joined_fits max_path root part (omega arith)

  below_part :
      (part file : Bytes)
      → length part ≤ 11
      → length part + length file ≤ length name + 27
      → joined max_path (joined max_path root part) file ≡ root </> part </> file
  below_part part file k l =
      ap (λ d. joined max_path d file) (below_root part k)
      ∙ joined_fits max_path (root </> part) file (omega (arith, length-slash root part))

  below_name :
      (part file : Bytes)
      → length part ≤ 11
      → length part + length file ≤ 26
      → joined max_path (joined max_path (joined max_path root part) name) file
        ≡ root </> part </> name </> file
  below_name part file k l =
      ap (λ d. joined max_path d file) (below_part part name k (omega arith))
      ∙ joined_fits max_path (root </> part </> name) file
          (omega (arith, length-slash root part, length-slash (root </> part) name))

-- With room for the longest path, all fourteen paths are the whole ones: nothing is cut off.
pub prepare_runtime_paths_whole :
    (c : Config) → FitsPaths c → prepare_runtime_paths c ≡ whole_paths c
unfolding prepare_runtime_paths
prepare_runtime_paths_whole c h = λ i. record {
  runtime_dir = copied_fits max_path c.runtime_root (omega arith) i;
  state_dir = below_root c h (codes "state") (omega arith) i;
  logs_dir = below_root c h (codes "logs") (omega arith) i;
  process_dir = below_part c h (codes "processes") c.process_name (omega arith) (omega arith) i;
  checkpoints_dir =
      below_part c h (codes "checkpoints") c.process_name (omega arith) (omega arith) i;
  checkpoint_slot_a_dir =
      below_name c h (codes "checkpoints") (codes "slot_A") (omega arith) (omega arith) i;
  checkpoint_slot_b_dir =
      below_name c h (codes "checkpoints") (codes "slot_B") (omega arith) (omega arith) i;
  checkpoint_meta_file =
      below_name c h (codes "checkpoints") (codes "active.meta") (omega arith) (omega arith) i;
  checkpoint_lock_file =
      below_name c h (codes "checkpoints") (codes "checkpoint.lock") (omega arith) (omega arith) i;
  state_file =
      below_part c h (codes "state") (c.process_name ++ codes ".state") (omega arith)
        (omega (arith, length-append c.process_name (codes ".state"))) i;
  pid_file = below_name c h (codes "processes") (codes "pid") (omega arith) (omega arith) i;
  status_file =
      below_name c h (codes "processes") (codes "status.txt") (omega arith) (omega arith) i;
  process_log =
      below_name c h (codes "processes") (codes "process.log") (omega arith) (omega arith) i;
  monitor_log =
      below_part c h (codes "logs") (c.process_name ++ codes "-monitor.log") (omega arith)
        (omega (arith, length-append c.process_name (codes "-monitor.log"))) i;
}
