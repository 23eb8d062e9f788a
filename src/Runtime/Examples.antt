-- ===== src/Runtime/Examples.antt =====
-- The theorems on the restore runtime, on a process that is a table of descriptors and of mapped
-- pages, with a snapshot that stands under the number of an entry.
use user_level_checkpoint_re.Base.{
  ℕ, ◌+◌, ◌≡◌, ◌≢◌, refl, true, ◌==◌, ◌&&◌, ap, if◌then◌else◌, Option, none, some, List, [], ◌∷◌,
  Bytes, codes, done, arith, all, leb, ltb,
}
use user_level_checkpoint_re.Base.Int.{ℤ, pos}
use user_level_checkpoint_re.Files.{Files, refused}
use user_level_checkpoint_re.Kernel.{Kernel, IsKernel}
use user_level_checkpoint_re.Procfs.{FdEntry}
use user_level_checkpoint_re.Snapshot.{SnapshotRegion}
use user_level_checkpoint_re.Runtime.{
  managed_base, managed_limit, restore_supported_fds, restore_managed_regions,
}
use user_level_checkpoint_re.Runtime.Reopened.{
  restore_supported_fds-others, restore_supported_fds-AllLead, AllLead, AllCanReopen, AllCanReopen,
}
use user_level_checkpoint_re.Runtime.Window.{HoldsInWindow, restore_managed_regions-keeps}

-- `table` is what the descriptors below `next` lead to; `mapped` has the addresses that were mapped.
record Process : Type 0 where
  table : ℕ → Option Bytes
  next : ℕ
  mapped : List ℕ

abbrev leads_to : Process → ℕ → Option Bytes
leads_to w c = if ltb c w.next then w.table c else none

abbrev files : Files
files = record {
  World = Process;
  open_file = λ m p w. (none, w);
  close_file = λ fd w. record w { table = λ c. if c == fd then none else w.table c };
  write = λ fd bytes w. (none, w);
  pwrite = λ fd bytes at w. (none, w);
  read = λ fd size w. (none, w);
  lseek_current = λ fd w. (none, w);
  fsync = λ fd w. (done, w);
  rename = λ old new w. (done, w);
  unlink = λ p w. w;
  mkdir = λ p w. (refused, w);
  access = λ p w. (true, w);
  flock = λ fd w. (done, w);
  funlock = λ fd w. w;
  now_text = λ w. (none, w);
}

abbrev kernel : Kernel files
kernel = record {
  open_as = λ path flags w. (
    some w.next,
    record w { table = λ c. if c == w.next then some path else w.table c; next = w.next + 1 },
  );
  seek_set = λ fd position w. w;
  dup2 = λ fd new w. (
    done,
    record w {
      table = λ c. if c == new then leads_to w fd else leads_to w c;
      next = w.next + new + 1;
    },
  );
  map_fixed = λ start size w. (done, record w { mapped = start ∷ w.mapped });
  pread_into = λ fd start size offset w. (some size, w);
  protect = λ start size prot w. (done, w);
  chdir = λ path w. w;
  mark_restored = λ w. w;
}

open_new :
    (path : Bytes) (flags : ℤ) (w : Process) (fd : ℕ)
    → (kernel.open_as path flags w).0 ≡ some fd
    → (leads_to w fd ≡ none) × (leads_to (kernel.open_as path flags w).1 fd ≡ some path)
open_new path flags w fd e = let q : fd ≡ w.next = cc in (ground arith, ground arith)

open_others :
    (path : Bytes) (flags : ℤ) (w : Process) (c : ℕ)
    → (kernel.open_as path flags w).0 ≢ some c
    → leads_to (kernel.open_as path flags w).1 c ≡ leads_to w c
open_others path flags w c h = let q : w.next ≢ c = λ e. h (ap some e) in ground arith

dup2_others :
    (fd new : ℕ) (w : Process) (c : ℕ)
    → c ≢ new
    → leads_to (kernel.dup2 fd new w).1 c ≡ leads_to w c
dup2_others fd new w c h = ground arith

dup2_done :
    (fd new : ℕ) (w : Process)
    → (kernel.dup2 fd new w).0 ≡ done
    → leads_to (kernel.dup2 fd new w).1 new ≡ leads_to w fd
dup2_done fd new w e = ground arith

close_others :
    (fd : ℕ) (w : Process) (c : ℕ) → c ≢ fd → leads_to (files.close_file fd w) c ≡ leads_to w c
close_others fd w c h = ground arith

unfoldable kernel-IsKernel : IsKernel files kernel
kernel-IsKernel = record {
  leads = leads_to;
  open-new = open_new;
  open-others = open_others;
  seek-leads = λ fd position w c. refl;
  dup2-done = dup2_done;
  dup2-others = dup2_others;
  close-others = close_others;
}

abbrev log_file : FdEntry
log_file = record {
  fd = pos 3;
  flags = pos 1;
  position = pos 120;
  supported = true;
  target = codes "/tmp/log";
}

abbrev data_file : FdEntry
data_file = record {
  fd = pos 4;
  flags = pos 2;
  position = pos 0;
  supported = true;
  target = codes "/tmp/data";
}

abbrev entries : List FdEntry
entries = log_file ∷ data_file ∷ []

-- The snapshot is open as 3.
abbrev process : Process
process = record {
  table = λ c. if c == 3 then some (codes "snapshot.bin") else some (codes "/dev/null");
  next = 4;
  mapped = [];
}

restore_supported_fds-others_example :
    leads_to (restore_supported_fds files kernel entries process) 0 ≡ some (codes "/dev/null")
unfolding kernel-IsKernel
restore_supported_fds-others_example =
    restore_supported_fds-others files kernel kernel-IsKernel entries process 0 (codes "/dev/null")
      (λ a. omega arith, (λ a. omega arith, tt)) refl

can : AllCanReopen files kernel kernel-IsKernel entries
can = (λ a. (λ w. λ e. cc, λ fd w h. refl), (λ a. (λ w. λ e. cc, λ fd w h. refl), tt))

restore_supported_fds-AllLead_example :
    AllLead files kernel kernel-IsKernel entries
      (restore_supported_fds files kernel entries process)
restore_supported_fds-AllLead_example =
    restore_supported_fds-AllLead files kernel kernel-IsKernel entries process
      (λ a. (λ b. omega arith, tt), (λ a. tt, tt)) can

abbrev MapsInside : Process → Type 0
MapsInside w = all (λ a. leb managed_base a && leb a managed_limit) w.mapped ≡ true

inside : HoldsInWindow files kernel MapsInside
inside = record {
  map = λ start size w h p. ground arith;
  pread = λ fd start size offset w h p. p;
  protect = λ start size prot w h p. p;
}

abbrev page : SnapshotRegion
page = record {
  meta = record {
    start = 0x530000001000;
    end = 0x530000002000;
    offset = 0;
    prot = 3;
    flags = 34;
    is_anonymous = true;
    include = true;
    name = [];
  };
  file_offset = 5000;
  data_size = 4096;
}

restore_managed_regions-keeps_example :
    MapsInside (restore_managed_regions files kernel (page ∷ []) 3 process).1
restore_managed_regions-keeps_example =
    restore_managed_regions-keeps files kernel MapsInside inside (page ∷ []) 3 process
      ((omega arith, omega arith, omega arith), tt) refl
