-- ===== src/Procfs/Regions/Collect.antt =====
-- Which regions `collect_regions` of src/procfs.c stores, and which of them it includes.
use Prim.Native.Nat.{bit_and, bit_or}
use user_level_checkpoint_re.Base.{
  ℕ, zero, suc, ◌-◌, ◌≤◌, ◌<◌, ◌≡◌, refl, sym, ◌∙◌, ap, Bool, true, false, not, ◌&&◌, ◌||◌, Option,
  none, some, List, [], ◌∷◌, ◌++◌, ◌==◌, ltb, if◌then◌else◌, Bytes, codes, str_eq, length,
  length-append, take, length-take, is_empty, append-nil, append_assoc, arith, Bool-cases, inl, inr,
}
use user_level_checkpoint_re.Cstring.{c_str, fgets_lines}
use user_level_checkpoint_re.Procfs.{Region, max_regions}
use user_level_checkpoint_re.Procfs.Regions.{
  perm_at, prot_of, prot_read, prot_write, prot_exec, is_included, contains, parse_maps_line,
  add_region, collect_lines, collect_regions,
}

-- The regions of the lines that can be parsed, with no limit.
unfoldable pub parsed_regions : List Bytes → List Region
unfolding add_region
parsed_regions [] = []
parsed_regions (line ∷ lines) = add_region [] (parse_maps_line (c_str line)) ++ parsed_regions lines

take-nil : {A : Type 0} (n : ℕ) → take {A = A} n [] ≡ []
take-nil zero = refl
take-nil (suc n) = refl

-- One more region, if there is one, in front of those that follow.
add_region-take :
    (regions more : List Region) (o : Option Region) (l : List Region)
    → length regions < max_regions
    → ((rs : List Region)
        → length rs ≤ max_regions
        → (rs ≡ add_region regions o)
        → l ≡ rs ++ take (max_regions - length rs) more)
    → l ≡ regions ++ take (max_regions - length regions) (add_region [] o ++ more)
unfolding add_region
add_region-take regions more none l h ih = ih regions (omega arith) refl
add_region-take regions more (some r) l h ih =
    let rs = regions ++ r ∷ [] in
    let e : max_regions - length regions ≡ suc (max_regions - length rs) =
      omega (arith, length-append regions (r ∷ [])) in
    ih rs (omega (arith, length-append regions (r ∷ []))) refl
    ∙ append_assoc regions (r ∷ []) (take (max_regions - length rs) more)
    ∙ ap (λ k. regions ++ take k (r ∷ more)) (sym e)

collect_lines-take :
    (regions : List Region) (lines : List Bytes)
    → length regions ≤ max_regions
    → collect_lines regions lines
      ≡ regions ++ take (max_regions - length regions) (parsed_regions lines)
unfolding collect_lines parsed_regions
collect_lines-take regions [] h =
    sym (ap (λ l. regions ++ l) (take-nil (max_regions - length regions)) ∙ append-nil regions)
collect_lines-take regions (line ∷ lines) h = elim (Bool-cases (ltb (length regions) max_regions)) [
  | inl room ↦ rw room (
      add_region-take regions (parsed_regions lines) (parse_maps_line (c_str line))
        (collect_lines (add_region regions (parse_maps_line (c_str line))) lines) (ground arith)
        (λ rs k e. ap (λ x. collect_lines x lines) (sym e) ∙ collect_lines-take rs lines k))
  | inr full ↦ rw full (full_up (max_regions - length regions) (ground arith))
]
  where
    full_up :
        (k : ℕ)
        → k ≡ 0
        → regions
          ≡ regions ++ take k (add_region [] (parse_maps_line (c_str line)) ++ parsed_regions lines)
    full_up k e = rw e (sym (append-nil regions))

-- `collect_regions` stores the regions of the lines that can be parsed, in their order, up to the
-- 512 that the array holds.
pub collect_regions_lem :
    (maps : Bytes)
    → (regions : List Region) × (collect_regions (some maps) ≡ some regions)
      × (regions ≡ take max_regions (parsed_regions (fgets_lines 1024 maps)))
      × (length regions ≤ max_regions)
unfolding collect_regions
collect_regions_lem maps =
    let lines = fgets_lines 1024 maps in
    let e = collect_lines-take [] lines (omega arith) in
    (
      collect_lines [] lines,
      refl,
      e,
      omega (arith, ap length e, length-take max_regions (parsed_regions lines)),
    )

-- The protection that three letters give, as `prot_of` builds it.
abbrev pub prot_bits : Bool → Bool → Bool → ℕ
prot_bits r w x =
    let p = if r then bit_or 0 prot_read else 0 in
    let q = if w then bit_or p prot_write else p in if x then bit_or q prot_exec else q

read_bit : (r w x : Bool) → not (bit_and (prot_bits r w x) prot_read == 0) ≡ r
read_bit true true true = refl
read_bit true true false = refl
read_bit true false true = refl
read_bit true false false = refl
read_bit false true true = refl
read_bit false true false = refl
read_bit false false true = refl
read_bit false false _ = refl

write_bit : (r w x : Bool) → not (bit_and (prot_bits r w x) prot_write == 0) ≡ w
write_bit true true true = refl
write_bit true true false = refl
write_bit true false true = refl
write_bit true false false = refl
write_bit false true true = refl
write_bit false true false = refl
write_bit false false true = refl
write_bit false false _ = refl

special :
    (r rest a b c : Bool)
    → (if a || b || c then false else (r && rest)) ≡ (r && rest && not a && not b && not c)
special true true true b c = refl
special true true false true c = refl
special true true false false _ = ground arith
special true false a b c = ground arith
special false rest a b c = ground arith

-- A region is included exactly if it is readable, and writable or the heap, the stack or without a
-- name, and is none of the three that the kernel maps into every process; in terms of the letters
-- of the permissions.
pub is_included_lem :
    (perms name : Bytes)
    → is_included (prot_of perms) name ≡ (
        perm_at 0 perms == b'r'
        && (perm_at 1 perms == b'w'
            || contains name (codes "[heap]")
            || contains name (codes "[stack]")
            || is_empty name)
        && not (str_eq name (codes "[vvar]"))
        && not (str_eq name (codes "[vdso]"))
        && not (str_eq name (codes "[vsyscall]")))
unfolding is_included prot_of
is_included_lem perms name =
    let r = perm_at 0 perms == b'r' in
    let w = perm_at 1 perms == b'w' in
    let x = perm_at 2 perms == b'x' in
    rw (read_bit r w x) (
      rw (write_bit r w x) (
        special r
          (w || contains name (codes "[heap]") || contains name (codes "[stack]") || is_empty name)
          (str_eq name (codes "[vvar]")) (str_eq name (codes "[vdso]"))
          (str_eq name (codes "[vsyscall]"))))
