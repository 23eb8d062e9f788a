-- ===== src/Procfs/Descriptors/Ranges.antt =====
-- The values of a descriptor's entry and the ranges of its C types.
use user_level_checkpoint_re.Base.{
  ℕ, zero, suc, ◌-◌, ◌≤◌, ◌<◌, ◌%◌, ◌^◌, ◌≡◌, refl, Bool, true, false, Option, none, some, List, [],
  ◌∷◌, ◌++◌, leb, if◌then◌else◌, Bytes, codes, length, take, arith,
}
use user_level_checkpoint_re.Base.Options.{◌>>=◌}
use user_level_checkpoint_re.Base.Int.{ℤ, pos, negsuc, neg_of, to_int, int_of_bits}
use user_level_checkpoint_re.Binary.Words.{IsLong}
use user_level_checkpoint_re.Cstring.{c_str, strip_prefix, fgets_lines}
use user_level_checkpoint_re.Cstring.Search.{c_str-c_str}
use user_level_checkpoint_re.Cstring.Number.{
  clamp_long, strtol, atoi, scan_sign, skip_space, scan_digits, print_ℤ_onto,
}
use user_level_checkpoint_re.Cstring.Number.RoundTrip.{IsInt}
use user_level_checkpoint_re.Common.{max_path, copied, joined}
use user_level_checkpoint_re.Common.Buffers.{length-copied, copied-text}
use user_level_checkpoint_re.Procfs.{FdEntry}
use user_level_checkpoint_re.Procfs.Descriptors.{
  Proc, proc_path, read_fdinfo_line, read_fdinfo_lines, collect_fdinfo, describe_fd,
  describe_target, blank, fdinfo_from, read_fdinfo, starts_slash, link_text,
}

pub record InRange (e : FdEntry) : Type 0 where
  pub fd_int : IsInt e.fd
  pub flags_int : IsInt e.flags
  pub position_long : IsLong e.position
  pub target_short : length e.target < max_path
  pub target_text : c_str e.target ≡ e.target

neg_of-IsLong : (n : ℕ) → n ≤ 2 ^ 63 → IsLong (neg_of n)
neg_of-IsLong zero h = omega arith
neg_of-IsLong (suc n) h = omega arith

clamp_long-IsLong : (negative : Bool) (n : ℕ) → IsLong (clamp_long negative n)
unfolding clamp_long
clamp_long-IsLong false n = ground arith
clamp_long-IsLong true n = neg_of-IsLong (if leb n (2 ^ 63) then n else 2 ^ 63) (ground arith)

strtol-IsLong : (base : ℕ) (s : Bytes) → IsLong (strtol base s)
unfolding strtol
strtol-IsLong base s =
    let (negative, body) = scan_sign (skip_space s) in
    clamp_long-IsLong negative (scan_digits base 0 body).0

int_of_bits-IsInt : (n : ℕ) → n < 2 ^ 32 → IsInt (int_of_bits n)
int_of_bits-IsInt n h = ground arith

to_int-IsInt : (z : ℤ) → IsInt (to_int z)
to_int-IsInt (pos n) = int_of_bits-IsInt (n % 2 ^ 32) (omega arith)
to_int-IsInt (negsuc n) = int_of_bits-IsInt (2 ^ 32 - 1 - n % 2 ^ 32) (omega arith)

fdinfo_from-InRange :
    (e : FdEntry) (position flags : Option Bytes)
    → InRange e
    → InRange (fdinfo_from e position flags)
unfolding fdinfo_from
fdinfo_from-InRange e (some rest) flags h = record {
  fd_int = h.fd_int;
  flags_int = h.flags_int;
  position_long = strtol-IsLong 10 rest;
  target_short = h.target_short;
  target_text = h.target_text;
}
fdinfo_from-InRange e none (some rest) h = record {
  fd_int = h.fd_int;
  flags_int = to_int-IsInt (strtol 8 rest);
  position_long = h.position_long;
  target_short = h.target_short;
  target_text = h.target_text;
}
fdinfo_from-InRange e none none h = h

read_fdinfo_lines-InRange :
    (e : FdEntry) (lines : List Bytes) → InRange e → InRange (read_fdinfo_lines e lines)
unfolding read_fdinfo_lines read_fdinfo_line
read_fdinfo_lines-InRange e [] h = h
read_fdinfo_lines-InRange e (line ∷ lines) h =
    read_fdinfo_lines-InRange (read_fdinfo_line e (c_str line)) lines (
      fdinfo_from-InRange e (strip_prefix (codes "pos:") (c_str line))
        (strip_prefix (codes "flags:") (c_str line)) h)

read_fdinfo-InRange : (e : FdEntry) (o : Option Bytes) → InRange e → InRange (read_fdinfo e o)
unfolding read_fdinfo
read_fdinfo-InRange e none h = h
read_fdinfo-InRange e (some text) h = read_fdinfo_lines-InRange e (fgets_lines 256 text) h

blank-InRange : (name : Bytes) → InRange (blank name)
unfolding atoi c_str
blank-InRange name = record {
  fd_int = to_int-IsInt (strtol 10 name);
  flags_int = omega arith;
  position_long = omega arith;
  target_short = omega arith;
  target_text = refl;
}

describe_target-InRange :
    (proc : Proc) (pid : ℤ) (e : FdEntry) (o : Option Bytes)
    → InRange e
    → ((t : Bytes) → o ≡ some t → c_str t ≡ t)
    → InRange (describe_target proc pid e o)
unfolding describe_target collect_fdinfo
describe_target-InRange proc pid e none h text = h
describe_target-InRange proc pid e (some target) h text =
    let e' : FdEntry = record e {
      target = copied max_path target;
      supported = starts_slash target;
    } in
    let h' : InRange e' = record {
      fd_int = h.fd_int;
      flags_int = h.flags_int;
      position_long = h.position_long;
      target_short = length-copied max_path target (omega arith);
      target_text = copied-text max_path target (text target refl);
    } in
    read_fdinfo-InRange e'
      (proc.contents (proc_path pid (codes "/fdinfo/" ++ print_ℤ_onto e.fd []))) h'

pub link_text-text :
    (proc : Proc) (path : Bytes) (room : ℕ) (t : Bytes)
    → link_text proc path room ≡ some t
    → c_str t ≡ t
unfolding link_text
link_text-text proc path room t e = go (proc.link path) e
  where
    go : (o : Option Bytes) → (o >>= λ u. some (c_str (take room u))) ≡ some t → c_str t ≡ t
    go none k = cc
    go (some u) k = let q : t ≡ c_str (take room u) = cc in rw q (c_str-c_str (take room u))

-- Whatever the kernel shows of a descriptor, what is stored of it is in the range of its C types: the
-- number and the flags are an `int`, the position is a `long long`, and the target is a C string
-- that ends inside its 512 bytes.
pub describe_fd-InRange :
    (proc : Proc) (pid : ℤ) (name : Bytes) → InRange (describe_fd proc pid name)
unfolding describe_fd
describe_fd-InRange proc pid name =
    let path = joined max_path (proc_path pid (codes "/fd")) name in
    describe_target-InRange proc pid (blank name) (link_text proc path (max_path - 1))
      (blank-InRange name) (link_text-text proc path (max_path - 1))
