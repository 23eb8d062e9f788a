-- ===== src/Files/Memory.antt =====
-- A machine that keeps its files in memory and fails the calls that a script names. It meets the
-- laws of Files/Posix, so they can hold.
use user_level_checkpoint_re.Base.{
  ◌∙◌, ℕ, ◌+◌, ◌≤◌, ◌≡◌, refl, ap, Bool, true, false, ◌&&◌, ◌||◌, Option, none, some, List, [], ◌∷◌,
  ◌==◌, if◌then◌else◌, Bytes, codes, length, take, take_all, take-append-drop, drop, str_eq,
  str_eq_iff, Status, done, failed, arith, Bool-cases, inl, inr, ltb, ◌<◌, ◌^◌,
}
use user_level_checkpoint_re.Files.{
  OpenMode, read_only, MkdirResult, created, exists, refused, Files,
}
use user_level_checkpoint_re.Files.Posix.{
  is_some, opened, count_of, splice, spliced, renamed, IsPosix,
}

-- `faults` says of each call to come whether it fails; behind its end all calls succeed.
pub record Machine : Type 0 where
  pub files : Bytes → Option Bytes
  pub dirs : Bytes → Bool
  pub handles : ℕ → Option (Bytes × ℕ)
  pub next : ℕ
  pub locked : Bool
  pub faults : List Bool

abbrev fails : List Bool → Bool
fails [] = false
fails (f ∷ fs) = f

abbrev later : List Bool → List Bool
later [] = []
later (f ∷ fs) = fs

abbrev pub tick : Machine → Machine
tick w = record w { faults = later w.faults }

abbrev update : (Bytes → Option Bytes) → Bytes → Option Bytes → Bytes → Option Bytes
update f p v q = if str_eq q p then v else f q

abbrev hold : (ℕ → Option (Bytes × ℕ)) → ℕ → Option (Bytes × ℕ) → ℕ → Option (Bytes × ℕ)
hold f n v k = if k == n then v else f k

-- A file that is only read has to be there.
abbrev can_open : OpenMode → Option Bytes → Bool
can_open read_only none = false
can_open _ _ = true

abbrev open_it : OpenMode → Bytes → Machine → Option ℕ × Machine
open_it m p w =
    if fails w.faults || (if can_open m (w.files p) then false else true) then (none, tick w) else (
      some w.next,
      record (tick w) {
        files = update w.files p (opened m (w.files p));
        handles = hold w.handles w.next (some (p, 0));
        next = w.next + 1;
      },
    )

abbrev write_at : ℕ → Bytes → Machine → Option (Bytes × ℕ) → Option ℕ × Machine
write_at fd bytes w none = (none, tick w)
write_at fd bytes w (some (p, offset)) = (
  some (length bytes),
  record (tick w) {
    files = update w.files p (spliced offset bytes (w.files p));
    handles = hold w.handles fd (some (p, offset + length bytes));
  },
)

abbrev write_it : ℕ → Bytes → Machine → Option ℕ × Machine
write_it fd bytes w = if fails w.faults then (none, tick w) else write_at fd bytes w (w.handles fd)

abbrev pwrite_at : Bytes → ℕ → Machine → Option (Bytes × ℕ) → Option ℕ × Machine
pwrite_at bytes at w none = (none, tick w)
pwrite_at bytes at w (some (p, offset)) = (
  some (length bytes),
  record (tick w) { files = update w.files p (spliced at bytes (w.files p)) },
)

abbrev pwrite_it : ℕ → Bytes → ℕ → Machine → Option ℕ × Machine
pwrite_it fd bytes at w =
    if fails w.faults then (none, tick w) else pwrite_at bytes at w (w.handles fd)

abbrev read_from : ℕ → ℕ → Machine → Bytes → ℕ → Option Bytes → Option Bytes × Machine
read_from fd size w p offset none = (none, tick w)
read_from fd size w p offset (some c) =
    let b : Bytes = take size (drop offset c) in
    (some b, record (tick w) { handles = hold w.handles fd (some (p, offset + length b)) })

abbrev read_at : ℕ → ℕ → Machine → Option (Bytes × ℕ) → Option Bytes × Machine
read_at fd size w none = (none, tick w)
read_at fd size w (some (p, offset)) = read_from fd size w p offset (w.files p)

abbrev read_it : ℕ → ℕ → Machine → Option Bytes × Machine
read_it fd size w = if fails w.faults then (none, tick w) else read_at fd size w (w.handles fd)

-- `lseek` fails where the offset is no `off_t`.
abbrev offset_of : Option (Bytes × ℕ) → Option ℕ
offset_of none = none
offset_of (some (p, offset)) = if ltb offset (2 ^ 63) then some offset else none

abbrev rename_it : Bytes → Bytes → Machine → Status × Machine
rename_it old new w =
    if fails w.faults
    then (failed, tick w)
    else (done, record (tick w) { files = renamed w.files old new })

abbrev unlink_it : Bytes → Machine → Machine
unlink_it p w = if fails w.faults then tick w else record (tick w) { files = update w.files p none }

abbrev mkdir_it : Bytes → Machine → MkdirResult × Machine
mkdir_it p w =
    if fails w.faults
    then (refused, tick w)
    else if w.dirs p
    then (exists, tick w)
    else (created, record (tick w) { dirs = λ q. str_eq q p || w.dirs q })

abbrev flock_it : Machine → Status × Machine
flock_it w =
    if fails w.faults || w.locked
    then (failed, tick w)
    else (done, record (tick w) { locked = true })

abbrev pub memory_files : Files
memory_files = record {
  World = Machine;
  open_file = open_it;
  close_file = λ fd w. tick w;
  write = write_it;
  pwrite = pwrite_it;
  read = read_it;
  lseek_current = λ fd w. (if fails w.faults then none else offset_of (w.handles fd), tick w);
  fsync = λ fd w. (if fails w.faults then failed else done, tick w);
  rename = rename_it;
  unlink = unlink_it;
  mkdir = mkdir_it;
  access = λ p w. (is_some (w.files p) || w.dirs p, tick w);
  flock = λ fd w. flock_it w;
  funlock = λ fd w. record (tick w) { locked = false };
  now_text = λ w. (some (codes "20260101-120000"), tick w);
}

pub open_it-file :
    (m : OpenMode) (p : Bytes) (w : Machine) (q : Bytes)
    → (open_it m p w).1.files q
      ≡ (if is_some (open_it m p w).0 && str_eq q p then opened m (w.files p) else w.files q)
open_it-file m p w q = ground arith

pub open_it-handle :
    (m : OpenMode) (p : Bytes) (w : Machine) (fd : ℕ)
    → (open_it m p w).0 ≡ some fd
    → (open_it m p w).1.handles fd ≡ some (p, 0)
open_it-handle m p w fd e = ground arith

splice_nil : (offset : ℕ) (c : Bytes) → splice offset [] c ≡ c
splice_nil offset c = let e : offset + 0 ≡ offset = omega arith in rw e (take-append-drop offset c)

spliced_nil : (offset : ℕ) (o : Option Bytes) → spliced offset [] o ≡ o
spliced_nil offset none = refl
spliced_nil offset (some c) = ap some (splice_nil offset c)

-- A write that fails leaves every file as it is.
unchanged :
    (w : Machine) (p q : Bytes) (offset : ℕ)
    → w.files q ≡ (if str_eq q p then spliced offset [] (w.files p) else w.files q)
unchanged w p q offset = ground (arith, str_eq_iff q p, spliced_nil offset (w.files p))

pub write_it-file :
    (fd : ℕ) (bytes : Bytes) (w : Machine) (p : Bytes) (offset : ℕ) (q : Bytes)
    → w.handles fd ≡ some (p, offset)
    → (write_it fd bytes w).1.files q ≡ (
        if str_eq q p
        then spliced offset (take (count_of (write_it fd bytes w).0) bytes) (w.files p)
        else w.files q)
write_it-file fd bytes w p offset q e = elim (Bool-cases (fails w.faults)) [
  | inl f ↦ rw f (unchanged w p q offset)
  | inr g ↦ rw (g, e) (rw (take_all (length bytes) bytes (omega arith)) refl)
]

pub pwrite_it-file :
    (fd : ℕ) (bytes : Bytes) (at : ℕ) (w : Machine) (p : Bytes) (offset : ℕ) (q : Bytes)
    → w.handles fd ≡ some (p, offset)
    → (pwrite_it fd bytes at w).1.files q ≡ (
        if str_eq q p
        then spliced at (take (count_of (pwrite_it fd bytes at w).0) bytes) (w.files p)
        else w.files q)
pwrite_it-file fd bytes at w p offset q e = elim (Bool-cases (fails w.faults)) [
  | inl f ↦ rw f (unchanged w p q at)
  | inr g ↦ rw (g, e) (rw (take_all (length bytes) bytes (omega arith)) refl)
]

pub write_it-count :
    (fd : ℕ) (bytes : Bytes) (w : Machine) → count_of (write_it fd bytes w).0 ≤ length bytes
write_it-count fd bytes w = ground arith

pub write_it-handle :
    (fd : ℕ) (bytes : Bytes) (w : Machine) (p : Bytes) (offset : ℕ)
    → w.handles fd ≡ some (p, offset)
    → (write_it fd bytes w).1.handles fd ≡ some (p, offset + count_of (write_it fd bytes w).0)
write_it-handle fd bytes w p offset e = ground arith

pub pwrite_it-handle :
    (fd : ℕ) (bytes : Bytes) (at : ℕ) (w : Machine)
    → (pwrite_it fd bytes at w).1.handles fd ≡ w.handles fd
pwrite_it-handle fd bytes at w = ground arith

module _ (fd size : ℕ) (w : Machine) where
  pub read_it-bytes :
      (p : Bytes) (offset : ℕ) (c b : Bytes)
      → w.handles fd ≡ some (p, offset)
      → w.files p ≡ some c
      → (read_it fd size w).0 ≡ some b
      → b ≡ take size (drop offset c)
  read_it-bytes p offset c b e f r = ground arith

  pub read_it-handle :
      (p : Bytes) (offset : ℕ) (b : Bytes)
      → w.handles fd ≡ some (p, offset)
      → (read_it fd size w).0 ≡ some b
      → (read_it fd size w).1.handles fd ≡ some (p, offset + length b)
  read_it-handle p offset b e r = ground arith

  pub read_it-file : (q : Bytes) → (read_it fd size w).1.files q ≡ w.files q
  read_it-file q = ground arith

pub rename_it_done :
    (old new : Bytes) (w : Machine) (q : Bytes)
    → (rename_it old new w).0 ≡ done
    → (rename_it old new w).1.files q ≡ renamed w.files old new q
rename_it_done old new w q e = ground arith

pub rename_it_failed :
    (old new : Bytes) (w : Machine) (q : Bytes)
    → (rename_it old new w).0 ≡ failed
    → (rename_it old new w).1.files q ≡ w.files q
rename_it_failed old new w q e = ground arith

pub unlink_it-file :
    (p : Bytes) (w : Machine) (q : Bytes) → str_eq q p ≡ false → (unlink_it p w).files q ≡ w.files q
unlink_it-file p w q e = ground arith

pub mkdir_it-file : (p : Bytes) (w : Machine) (q : Bytes) → (mkdir_it p w).1.files q ≡ w.files q
mkdir_it-file p w q = ground arith

pub access_it_there :
    (p : Bytes) (w : Machine) (c : Bytes)
    → w.files p ≡ some c
    → (is_some (w.files p) || w.dirs p) ≡ true
access_it_there p w c e = rw e

pub flock_it-file : (w : Machine) (q : Bytes) → (flock_it w).1.files q ≡ w.files q
flock_it-file w q = ground arith

pub told_offset :
    (failing : Bool) (o : Option (Bytes × ℕ)) (n : ℕ)
    → (if failing then none else offset_of o) ≡ some n
    → n < 2 ^ 63
told_offset true o n e = absurd cc
told_offset false none n e = absurd cc
told_offset false (some (p, offset)) n e = ground arith

pub told_where :
    (failing : Bool) (o : Option (Bytes × ℕ)) (p : Bytes) (offset n : ℕ)
    → o ≡ some (p, offset)
    → (if failing then none else offset_of o) ≡ some n
    → n ≡ offset
told_where true o p offset n e f = absurd cc
told_where false none p offset n e f = absurd cc
told_where false (some (q, k)) p offset n e f =
    let l : k ≡ offset = cc in
    elim (Bool-cases (ltb k (2 ^ 63))) [
      | inl small ↦ let r : n ≡ k = cc (rw small at f) in r ∙ l
      | inr big ↦ absurd (cc (rw big at f))
    ]

unfoldable pub memory_files-IsPosix : IsPosix memory_files
memory_files-IsPosix = record {
  file = λ w. w.files;
  target = λ w. w.handles;
  open-file = open_it-file;
  open-target = open_it-handle;
  close-file = λ fd w q. refl;
  write-file = write_it-file;
  write-count = write_it-count;
  write-target = write_it-handle;
  pwrite-file = pwrite_it-file;
  pwrite-target = pwrite_it-handle;
  read-bytes = read_it-bytes;
  read-target = read_it-handle;
  read-file = read_it-file;
  lseek-file = λ fd w q. refl;
  lseek-target = λ fd w. refl;
  lseek-tells = λ fd w p offset n e f. told_where (fails w.faults) (w.handles fd) p offset n e f;
  lseek-offset = λ fd w n e. told_offset (fails w.faults) (w.handles fd) n e;
  fsync-file = λ fd w q. refl;
  rename-done = rename_it_done;
  rename-failed = rename_it_failed;
  unlink-file = unlink_it-file;
  mkdir-file = mkdir_it-file;
  access-file = λ p w q. refl;
  access_there = access_it_there;
  flock-file = λ fd. flock_it-file;
  funlock-file = λ fd w q. refl;
  now-file = λ w q. refl;
}
