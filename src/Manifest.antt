-- ===== src/Manifest.antt =====
-- `ulcr_write_manifest` of src/snapshot.c: the report beside a snapshot, and the move of a finished
-- file to its name.
use user_level_checkpoint_re.Base.{
  ℕ, ◌+◌, Bool, true, false, if◌then◌else◌, ltb, Option, none, some, List, [], ◌∷◌, ◌++◌, Bytes,
  codes, length, is_empty, Status, failed, is_failed,
}
use user_level_checkpoint_re.Common.{max_path, joined}
use user_level_checkpoint_re.Cstring.Number.{print_onto, print_ℤ_onto}
use user_level_checkpoint_re.Files.{Files, write_truncate, ◌>>=◌, ◌>>◌, pure, ignore}
use user_level_checkpoint_re.Procfs.{FdEntry}
use user_level_checkpoint_re.Snapshot.{SnapshotRegion, Image}
use user_level_checkpoint_re.Storage.{fsync_path_directory}
use user_level_checkpoint_re.Tracer.{Tracer}

module _ (fs : Files) (tr : Tracer fs) where
  open fs use {World, open_file, close_file, write, rename, unlink}

  abbrev pub manifest_path : Bytes → Bytes
  manifest_path dir = joined max_path dir (codes "manifest.txt")

  abbrev pub manifest_tmp_path : Bytes → Bytes
  manifest_tmp_path dir = joined max_path dir (codes "manifest.txt.tmp")

  -- `rename`, and then the directory is flushed.
  unfoldable pub move_file : Bytes → Bytes → World → Status × World
  move_file tmp_path path = do
    moved ← rename tmp_path path
    if is_failed moved then (do unlink tmp_path; pure failed) else fsync_path_directory fs path

  -- The conversions %d and %llu, and %llx.
  abbrev decimal : ℕ → Bytes
  decimal n = print_onto 10 n []

  abbrev hex : ℕ → Bytes
  hex n = print_onto 16 n []

  abbrev flat : List Bytes → Bytes
  flat [] = []
  flat (s ∷ ss) = s ++ flat ss

  -- The conversion %03zu.
  abbrev three_digits : ℕ → Bytes
  three_digits n =
      (if ltb n 10 then codes "00" else if ltb n 100 then codes "0" else []) ++ print_onto 10 n []

  abbrev number_of_flag : Bool → ℕ
  number_of_flag true = 1
  number_of_flag false = 0

  region_lines : ℕ → List SnapshotRegion → Bytes
  region_lines index [] = []
  region_lines index (r ∷ rs) =
      flat (
        three_digits index
        ∷ codes " start=0x"
        ∷ hex r.meta.start
        ∷ codes " end=0x"
        ∷ hex r.meta.end
        ∷ codes " prot="
        ∷ decimal r.meta.prot
        ∷ codes " include="
        ∷ decimal (number_of_flag r.meta.include)
        ∷ codes " name="
        ∷ (if is_empty r.meta.name then codes "<anonymous>" else r.meta.name)
        ∷ codes " size="
        ∷ decimal r.data_size
        ∷ codes "\n"
        ∷ [])
      ++ region_lines (index + 1) rs

  fd_lines : List FdEntry → Bytes
  fd_lines [] = []
  fd_lines (e ∷ es) =
      flat (
        codes "fd="
        ∷ print_ℤ_onto e.fd []
        ∷ codes " supported="
        ∷ decimal (number_of_flag e.supported)
        ∷ codes " flags="
        ∷ print_ℤ_onto e.flags []
        ∷ codes " pos="
        ∷ print_ℤ_onto e.position []
        ∷ codes " target="
        ∷ e.target
        ∷ codes "\n"
        ∷ [])
      ++ fd_lines es

  -- The text of the manifest.
  unfoldable pub manifest_text : Image tr.Regs → Bytes
  unfolding region_lines fd_lines
  manifest_text image = flat (
      codes "process_name="
      ∷ image.header.process_name
      ∷ codes "\npid="
      ∷ print_ℤ_onto image.header.pid []
      ∷ codes "\nexe_path="
      ∷ image.header.exe_path
      ∷ codes "\ncwd="
      ∷ image.header.cwd
      ∷ codes "\nregion_count="
      ∷ decimal (length image.regions)
      ∷ codes "\nfd_count="
      ∷ decimal (length image.fds)
      ∷ codes "\nsaved_rip=0x"
      ∷ hex (tr.rip image.header.regs)
      ∷ codes "\nsaved_rsp=0x"
      ∷ hex (tr.rsp image.header.regs)
      ∷ codes "\n\n[regions]\n"
      ∷ region_lines 0 image.regions
      ∷ codes "\n[fds]\n"
      ∷ fd_lines image.fds
      ∷ [])

  unfoldable pub fill_manifest : Bytes → Image tr.Regs → Option ℕ → World → Status × World
  fill_manifest dir image none = pure failed
  fill_manifest dir image (some fd) = do
    ignore (write fd (manifest_text image))
    close_file fd
    move_file (manifest_tmp_path dir) (manifest_path dir)

  -- `ulcr_write_manifest`. The stream's buffer is one write, whose result is not looked at.
  unfoldable pub write_manifest : Bytes → Image tr.Regs → World → Status × World
  unfolding fill_manifest
  write_manifest dir image = do
    fd ← open_file write_truncate (manifest_tmp_path dir)
    fill_manifest dir image fd
