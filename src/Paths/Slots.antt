-- ===== src/Paths/Slots.antt =====
-- The two checkpoint slots among the paths of src/config.c.
use user_level_checkpoint_re.Base.{
  ◌+◌, ◌≤◌, ◌≡◌, ◌≢◌, refl, sym, ◌∙◌, [], ◌∷◌, ◌++◌, Bytes, codes, length, length-take,
  append_assoc, false, str_eq, str_ne, arith,
}
use user_level_checkpoint_re.Common.{max_path, joined, formatted}
use user_level_checkpoint_re.Config.{Config}
use user_level_checkpoint_re.Paths.{RuntimePaths, prepare_runtime_paths}
use user_level_checkpoint_re.Paths.Exact.{
  ◌</>◌, length-slash, joined_full, FitsPaths, prepare_runtime_paths_whole,
}

append-cancel : (p a b : Bytes) → p ++ a ≡ p ++ b → a ≡ b
append-cancel [] a b e = e
append-cancel (c ∷ p) a b e = append-cancel p a b (cc e)

-- What is written in two slots and the active file's name stay apart.
pub record Separate (p : RuntimePaths) : Type 0 where
  pub slots : p.checkpoint_slot_a_dir ≢ p.checkpoint_slot_b_dir
  pub snapshots :
      p.checkpoint_slot_a_dir </> codes "snapshot.bin"
      ≢ p.checkpoint_slot_b_dir </> codes "snapshot.bin"
  pub meta_a : p.checkpoint_slot_a_dir </> codes "snapshot.bin" ≢ p.checkpoint_meta_file
  pub meta_b : p.checkpoint_slot_b_dir </> codes "snapshot.bin" ≢ p.checkpoint_meta_file

-- Files in two directories with one parent.
below-ne : (dir a b file : Bytes) → str_eq (a </> file) b ≡ false → (dir </> a) </> file ≢ dir </> b
below-ne dir a b file h e = str_ne (b'/' ∷ (a </> file)) (b'/' ∷ b) (unfold str_eq in h) (
    append-cancel dir (b'/' ∷ (a </> file)) (b'/' ∷ b)
      (sym (append_assoc dir (b'/' ∷ a) (b'/' ∷ file)) ∙ e))

slots-ne : (dir : Bytes) → dir </> codes "slot_A" ≢ dir </> codes "slot_B"
unfolding str_eq
slots-ne dir e =
    str_ne (b'/' ∷ codes "slot_A") (b'/' ∷ codes "slot_B") refl
      (append-cancel dir (b'/' ∷ codes "slot_A") (b'/' ∷ codes "slot_B") e)

snapshots-ne :
    (dir : Bytes)
    → dir </> codes "slot_A" </> codes "snapshot.bin"
      ≢ dir </> codes "slot_B" </> codes "snapshot.bin"
unfolding str_eq
snapshots-ne dir e =
    below-ne dir (codes "slot_A") (codes "slot_B" </> codes "snapshot.bin") (codes "snapshot.bin")
      refl (e ∙ append_assoc dir (b'/' ∷ codes "slot_B") (b'/' ∷ codes "snapshot.bin"))

-- With room for the longest path, the two slots are different directories, their snapshots are
-- different files, and neither is the file that names the active slot.
pub prepare_runtime_paths-Separate : (c : Config) → FitsPaths c → Separate (prepare_runtime_paths c)
unfolding str_eq
prepare_runtime_paths-Separate c h =
    let dir = c.runtime_root </> codes "checkpoints" </> c.process_name in
    rw (prepare_runtime_paths_whole c h) (record {
      slots = slots-ne dir;
      snapshots = snapshots-ne dir;
      meta_a = below-ne dir (codes "slot_A") (codes "active.meta") (codes "snapshot.bin") refl;
      meta_b = below-ne dir (codes "slot_B") (codes "active.meta") (codes "snapshot.bin") refl;
    })

joined_long :
    (dir name : Bytes)
    → max_path ≤ length dir + length name + 2
    → length (joined max_path dir name) + 1 ≡ max_path
unfolding joined formatted
joined_long dir name h = omega (arith, length-take 511 (dir </> name), length-slash dir name)

-- With a root of 499 bytes or more, which the configuration allows up to 511, both slots are cut to
-- one path.
pub slots_collide :
    (c : Config)
    → 499 ≤ length c.runtime_root
    → (prepare_runtime_paths c).checkpoint_slot_a_dir
      ≡ (prepare_runtime_paths c).checkpoint_slot_b_dir
unfolding prepare_runtime_paths
slots_collide c h =
    joined_full max_path dir (codes "slot_A") full
    ∙ sym (joined_full max_path dir (codes "slot_B") full)
  where
    root : Bytes
    root = joined max_path c.runtime_root (codes "checkpoints")

    dir : Bytes
    dir = joined max_path root c.process_name

    full : length dir + 1 ≡ max_path
    full =
        joined_long root c.process_name
          (omega (arith, joined_long c.runtime_root (codes "checkpoints") (omega arith)))
