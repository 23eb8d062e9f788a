-- ===== src/Procfs/Regions.antt =====
-- `parse_maps_line` and the loop of `collect_regions` of src/procfs.c, on the text of
-- /proc/<pid>/maps.
pub mod Collect
pub mod Ranges
use Prim.Native.Nat.{bit_and, bit_or}
use user_level_checkpoint_re.Base.{
  ℕ, zero, suc, ◌+◌, ◌-◌, ◌^◌, ◌%◌, Bool, true, false, not, ◌&&◌, ◌||◌, Option, none, some, List,
  [], ◌∷◌, ◌++◌, ◌==◌, ltb, if◌then◌else◌, Bytes, codes, str_eq, length, is_empty,
}
use user_level_checkpoint_re.Base.Options.{◌>>=◌}
use user_level_checkpoint_re.Cstring.{c_str, after_first, fgets_lines}
use user_level_checkpoint_re.Cstring.Number.{
  scan_digits, char_digit, scan_sign, skip_space, is_space,
}
use user_level_checkpoint_re.Common.{copied}
use user_level_checkpoint_re.Procfs.{Region, max_regions}
use user_level_checkpoint_re.Procfs.Stat.{to_ull, scan_number}

-- A leading "0x" of a hexadecimal number, as `strtoul` drops it.
skip_0x : Bytes → Bytes
skip_0x (z ∷ x ∷ cs) = if z == b'0' && (x == b'x' || x == b'X') then cs else z ∷ x ∷ cs
skip_0x s = s

starts_hex : Bytes → Bool
starts_hex [] = false
starts_hex (c ∷ cs) = elim (char_digit 16 c) [ none ↦ false | some d ↦ true ]

-- The conversion %lx.
scan_hex : Bytes → Option (ℕ × Bytes)
unfolding skip_0x starts_hex
scan_hex s =
    let (negative, signed) = scan_sign (skip_space s) in
    let body = skip_0x signed in
    if starts_hex body
    then (let (n, rest) = scan_digits 16 0 body in some (to_ull negative n, rest))
    else none

-- At most so many bytes that pass the test, and the rest.
take_while : ℕ → (ℕ → Bool) → Bytes → Bytes × Bytes
take_while zero p s = ([], s)
take_while (suc n) p [] = ([], [])
take_while (suc n) p (c ∷ cs) =
    let (l, r) = take_while n p cs in if p c then (c ∷ l, r) else ([], c ∷ cs)

nonempty : Bytes × Bytes → Option (Bytes × Bytes)
nonempty ([], rest) = none
nonempty (c ∷ cs, rest) = some (c ∷ cs, rest)

-- The conversion %<width>s, and %<width>[^\n].
scan_word : ℕ → Bytes → Option (Bytes × Bytes)
unfolding take_while nonempty
scan_word width s = nonempty (take_while width (λ c. not (is_space c)) (skip_space s))

scan_line : ℕ → Bytes → Option (Bytes × Bytes)
unfolding take_while nonempty
scan_line width s = nonempty (take_while width (λ c. not (c == b'\n')) s)

-- A byte of the format that has to be there.
scan_byte : ℕ → Bytes → Option Bytes
scan_byte b [] = none
scan_byte b (c ∷ cs) = if c == b then some cs else none

-- What the six conversions that must succeed have stored, and the seventh if it has.
pub record MapsFields : Type 0 where
  pub start : ℕ
  pub end : ℕ
  pub perms : Bytes
  pub offset : ℕ
  pub path : Option Bytes

abbrev first_of : Option (Bytes × Bytes) → Option Bytes
first_of none = none
first_of (some (word, rest)) = some word

-- `sscanf(line, "%lx-%lx %4s %lx %31s %lu %255[^\n]", …)`; `none` where fewer than six are stored.
scan_maps : Bytes → Option MapsFields
unfolding scan_hex scan_word scan_line scan_byte
scan_maps line = do
  (start, r1) ← scan_hex line
  r2 ← scan_byte b'-' r1
  (end, r3) ← scan_hex r2
  (perms, r4) ← scan_word 4 r3
  (offset, r5) ← scan_hex r4
  (dev, r6) ← scan_word 31 r5
  (inode, r7) ← scan_number r6
  some (record {
    start = start;
    end = end;
    perms = perms;
    offset = offset;
    path = first_of (scan_line 255 (skip_space r7));
  })

-- A byte of `perms`, which is filled up with zeros.
abbrev pub perm_at : ℕ → Bytes → ℕ
perm_at i [] = 0
perm_at zero (c ∷ cs) = c
perm_at (suc i) (c ∷ cs) = perm_at i cs

-- PROT_READ, PROT_WRITE and PROT_EXEC, MAP_SHARED and MAP_PRIVATE.
abbrev pub prot_read : ℕ
prot_read = 1

abbrev pub prot_write : ℕ
prot_write = 2

abbrev pub prot_exec : ℕ
prot_exec = 4

abbrev pub map_shared : ℕ
map_shared = 1

abbrev pub map_private : ℕ
map_private = 2

unfoldable pub prot_of : Bytes → ℕ
prot_of perms =
    let r = if perm_at 0 perms == b'r' then bit_or 0 prot_read else 0 in
    let w = if perm_at 1 perms == b'w' then bit_or r prot_write else r in
    if perm_at 2 perms == b'x' then bit_or w prot_exec else w

abbrev has_bit : ℕ → ℕ → Bool
has_bit prot bit = not (bit_and prot bit == 0)

abbrev pub contains : Bytes → Bytes → Bool
contains name part = elim (after_first part name) [ none ↦ false | some rest ↦ true ]

-- Whether the contents of a region go into the snapshot.
unfoldable pub is_included : ℕ → Bytes → Bool
is_included prot name =
    let wanted =
      has_bit prot prot_read
      && (has_bit prot prot_write
          || contains name (codes "[heap]")
          || contains name (codes "[stack]")
          || is_empty name) in
    if str_eq name (codes "[vvar]")
      || str_eq name (codes "[vdso]")
      || str_eq name (codes "[vsyscall]")
    then false
    else wanted

starts_bracket : Bytes → Bool
starts_bracket [] = false
starts_bracket (c ∷ cs) = c == b'['

name_of : Option Bytes → Bytes
name_of none = []
name_of (some path) = copied 256 path

region_of : MapsFields → Region
unfolding starts_bracket name_of prot_of is_included
region_of f =
    let name = name_of f.path in
    let prot = prot_of f.perms in
    record {
      start = f.start;
      end = f.end;
      offset = f.offset;
      prot = prot;
      flags = if perm_at 3 f.perms == b'p' then map_private else map_shared;
      is_anonymous = is_empty name || starts_bracket name;
      include = is_included prot name;
      name = name;
    }

region_from : Option MapsFields → Option Region
region_from none = none
region_from (some f) = some (region_of f)

-- `parse_maps_line`: the region, or `none` for -1.
unfoldable pub parse_maps_line : Bytes → Option Region
unfolding region_from region_of scan_maps
parse_maps_line line = region_from (scan_maps line)

unfoldable pub add_region : List Region → Option Region → List Region
add_region regions none = regions
add_region regions (some r) = regions ++ r ∷ []

-- The loop of `collect_regions` on the lines, from the regions that are stored.
unfoldable pub collect_lines : List Region → List Bytes → List Region
unfolding add_region
collect_lines regions [] = regions
collect_lines regions (line ∷ lines) =
    let rest = collect_lines (add_region regions (parse_maps_line (c_str line))) lines in
    if ltb (length regions) max_regions then rest else regions

-- `collect_regions`, on the stream's bytes, `none` where it cannot be opened.
unfoldable pub collect_regions : Option Bytes → Option (List Region)
unfolding collect_lines
collect_regions none = none
collect_regions (some maps) = some (collect_lines [] (fgets_lines 1024 maps))
