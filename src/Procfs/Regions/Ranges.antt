-- ===== src/Procfs/Regions/Ranges.antt =====
-- The values of a region that `parse_maps_line` of src/procfs.c gives, and their C types.
use user_level_checkpoint_re.Base.{
  ℕ, zero, suc, ◌<◌, ◌^◌, ◌≡◌, refl, ap, Bool, true, false, Option, none, some, [], ◌∷◌, ◌==◌, ◌&&◌,
  ◌||◌, not, Bytes, length, arith, Bool-cases, Option-cases, ◌*◌, ◌+◌, inl, inr,
}
use user_level_checkpoint_re.Base.Results.{Holds, bind-Holds}
use user_level_checkpoint_re.Cstring.{c_str}
use user_level_checkpoint_re.Cstring.Number.{
  scan_digits, char_digit, scan_sign, skip_space, is_space,
}
use user_level_checkpoint_re.Cstring.Search.{c_str-c_str}
use user_level_checkpoint_re.Common.Buffers.{length-copied, copied-text}
use user_level_checkpoint_re.Procfs.{Region}
use user_level_checkpoint_re.Procfs.Stat.{to_ull, starts_digit, scan_number}
use user_level_checkpoint_re.Procfs.Regions.{
  skip_0x, starts_hex, scan_hex, take_while, nonempty, scan_word, scan_line, scan_byte, MapsFields,
  first_of, scan_maps, name_of, region_of, region_from, parse_maps_line, prot_of, perm_at,
}
use user_level_checkpoint_re.Procfs.Regions.Collect.{prot_bits}

-- A C string: no byte of it is 0.
abbrev IsText : Bytes → Type 0
IsText s = c_str s ≡ s

IsText-tail : (c : ℕ) (cs : Bytes) → IsText (c ∷ cs) → ((c == 0) ≡ false) × IsText cs
unfolding c_str
IsText-tail c cs h = elim (Bool-cases (c == 0)) [
  | inl z ↦ absurd (cc (rw z at h))
  | inr k ↦ (k, cc (rw k at h))
]

IsText-cons : (c : ℕ) (cs : Bytes) → (c == 0) ≡ false → IsText cs → IsText (c ∷ cs)
unfolding c_str
IsText-cons c cs k h = rw k (ap (◌∷◌ c) h)

skip_space-IsText : (s : Bytes) → IsText s → IsText (skip_space s)
unfolding skip_space
skip_space-IsText [] h = h
skip_space-IsText (c ∷ cs) h = elim (Bool-cases (is_space c)) [
  | inl space ↦ rw space (skip_space-IsText cs (IsText-tail c cs h).1)
  | inr other ↦ rw other h
]

scan_sign-IsText : (s : Bytes) → IsText s → IsText (scan_sign s).1
unfolding scan_sign
scan_sign-IsText [] h = h
scan_sign-IsText (c ∷ cs) h = elim (Bool-cases (c == b'-')) [
  | inl minus ↦ rw minus (IsText-tail c cs h).1
  | inr other ↦ rw other (elim (Bool-cases (c == b'+')) [
    | inl plus ↦ rw plus (IsText-tail c cs h).1
    | inr more ↦ rw more h
  ])
]

skip_0x-IsText : (s : Bytes) → IsText s → IsText (skip_0x s)
unfolding skip_0x
skip_0x-IsText [] h = h
skip_0x-IsText (z ∷ []) h = h
skip_0x-IsText (z ∷ x ∷ cs) h = elim (Bool-cases (z == b'0' && (x == b'x' || x == b'X'))) [
  | inl hex ↦ rw hex (IsText-tail x cs (IsText-tail z (x ∷ cs) h).1).1
  | inr other ↦ rw other h
]

scan_digits-IsText : (base n : ℕ) (s : Bytes) → IsText s → IsText (scan_digits base n s).1
unfolding scan_digits
scan_digits-IsText base n [] h = h
scan_digits-IsText base n (c ∷ cs) h = elim (Option-cases (char_digit base c)) [
  | inl none_there ↦ rw (none_there, scan_digits) h
  | inr (d, there) ↦
      rw (there, scan_digits) (scan_digits-IsText base (n * base + d) cs (IsText-tail c cs h).1)
]

to_ull-word : (negative : Bool) (n : ℕ) → to_ull negative n < 2 ^ 64
unfolding to_ull
to_ull-word negative n = ground arith

-- A number that a C `unsigned long` holds, and a string behind it.
abbrev IsScanned : ℕ × Bytes → Type 0
IsScanned r = (r.0 < 2 ^ 64) × IsText r.1

scan_hex-IsScanned : (s : Bytes) → IsText s → Holds IsScanned (scan_hex s)
unfolding scan_hex
scan_hex-IsScanned s h =
    let sign = scan_sign (skip_space s) in
    let body = skip_0x sign.1 in
    elim (Bool-cases (starts_hex body)) [
      | inl digits ↦ rw digits (
        to_ull-word sign.0 (scan_digits 16 0 body).0,
        scan_digits-IsText 16 0 body
            (skip_0x-IsText sign.1 (scan_sign-IsText (skip_space s) (skip_space-IsText s h))),
      )
      | inr none_there ↦ rw none_there tt
    ]

take_while-IsText :
    (n : ℕ) (p : ℕ → Bool) (s : Bytes)
    → IsText s
    → IsText (take_while n p s).0 × IsText (take_while n p s).1
unfolding take_while c_str
take_while-IsText zero p s h = (refl, h)
take_while-IsText (suc n) p [] h = (refl, refl)
take_while-IsText (suc n) p (c ∷ cs) h =
    let (k, t) = IsText-tail c cs h in
    elim (Bool-cases (p c)) [
      | inl pass ↦
          let (l, r) = take_while-IsText n p cs t in
          rw pass (IsText-cons c (take_while n p cs).0 k l, r)
      | inr stop ↦ rw stop (refl, h)
    ]

-- A string that has been read, and one behind it.
abbrev IsCut : Bytes × Bytes → Type 0
IsCut r = IsText r.0 × IsText r.1

nonempty-IsCut : (r : Bytes × Bytes) → IsCut r → Holds IsCut (nonempty r)
unfolding nonempty
nonempty-IsCut ([], rest) h = tt
nonempty-IsCut (c ∷ cs, rest) h = h

scan_word-IsCut : (width : ℕ) (s : Bytes) → IsText s → Holds IsCut (scan_word width s)
unfolding scan_word
scan_word-IsCut width s h =
    nonempty-IsCut (take_while width (λ c. not (is_space c)) (skip_space s))
      (take_while-IsText width (λ c. not (is_space c)) (skip_space s) (skip_space-IsText s h))

scan_line-IsCut : (width : ℕ) (s : Bytes) → IsText s → Holds IsCut (scan_line width s)
unfolding scan_line
scan_line-IsCut width s h =
    nonempty-IsCut (take_while width (λ c. not (c == b'\n')) s)
      (take_while-IsText width (λ c. not (c == b'\n')) s h)

scan_byte-IsText : (b : ℕ) (s : Bytes) → IsText s → Holds IsText (scan_byte b s)
unfolding scan_byte
scan_byte-IsText b [] h = tt
scan_byte-IsText b (c ∷ cs) h = elim (Bool-cases (c == b)) [
  | inl there ↦ rw there (IsText-tail c cs h).1
  | inr other ↦ rw other tt
]

scan_number-IsScanned : (s : Bytes) → IsText s → Holds IsScanned (scan_number s)
unfolding scan_number
scan_number-IsScanned s h =
    let sign = scan_sign (skip_space s) in
    elim (Bool-cases (starts_digit sign.1)) [
      | inl digits ↦ rw digits (
        to_ull-word sign.0 (scan_digits 10 0 sign.1).0,
        scan_digits-IsText 10 0 sign.1 (scan_sign-IsText (skip_space s) (skip_space-IsText s h)),
      )
      | inr none_there ↦ rw none_there tt
    ]

first_of-IsText : (o : Option (Bytes × Bytes)) → Holds IsCut o → Holds IsText (first_of o)
first_of-IsText none h = tt
first_of-IsText (some (word, rest)) h = h.0

-- What `sscanf` has stored of a line.
record IsStored (f : MapsFields) : Type 0 where
  start_word : f.start < 2 ^ 64
  end_word : f.end < 2 ^ 64
  offset_word : f.offset < 2 ^ 64
  path_text : Holds IsText f.path

scan_maps-IsStored : (line : Bytes) → IsText line → Holds IsStored (scan_maps line)
unfolding scan_maps
scan_maps-IsStored line h =
    bind-Holds IsScanned IsStored (scan_hex line) _ (scan_hex-IsScanned line h) (λ a ha.
      bind-Holds IsText IsStored (scan_byte b'-' a.1) _ (scan_byte-IsText b'-' a.1 ha.1) (λ r hr.
        bind-Holds IsScanned IsStored (scan_hex r) _ (scan_hex-IsScanned r hr) (λ b hb.
          bind-Holds IsCut IsStored (scan_word 4 b.1) _ (scan_word-IsCut 4 b.1 hb.1) (λ c hc.
            bind-Holds IsScanned IsStored (scan_hex c.1) _ (scan_hex-IsScanned c.1 hc.1) (λ d hd.
              bind-Holds IsCut IsStored (scan_word 31 d.1) _ (scan_word-IsCut 31 d.1 hd.1) (λ e he.
                bind-Holds IsScanned IsStored (scan_number e.1) _ (scan_number-IsScanned e.1 he.1)
                  (λ i hi. record {
                    start_word = ha.0;
                    end_word = hb.0;
                    offset_word = hd.0;
                    path_text =
                        first_of-IsText (scan_line 255 (skip_space i.1))
                          (scan_line-IsCut 255 (skip_space i.1) (skip_space-IsText i.1 hi.1));
                  })))))))

-- The values that the C type of a region holds.
pub record InRange (r : Region) : Type 0 where
  pub start_word : r.start < 2 ^ 64
  pub end_word : r.end < 2 ^ 64
  pub offset_word : r.offset < 2 ^ 64
  pub prot_int : r.prot < 2 ^ 31
  pub flags_int : r.flags < 2 ^ 31
  pub name_short : length r.name < 256
  pub name_text : c_str r.name ≡ r.name

prot_bits-small : (r w x : Bool) → prot_bits r w x < 8
prot_bits-small true true true = omega arith
prot_bits-small true true false = omega arith
prot_bits-small true false true = omega arith
prot_bits-small true false false = omega arith
prot_bits-small false true true = omega arith
prot_bits-small false true false = omega arith
prot_bits-small false false true = omega arith
prot_bits-small false false false = omega arith

prot_of-small : (perms : Bytes) → prot_of perms < 8
unfolding prot_of
prot_of-small perms =
    prot_bits-small (perm_at 0 perms == b'r') (perm_at 1 perms == b'w') (perm_at 2 perms == b'x')

name_of-IsText : (o : Option Bytes) → Holds IsText o → IsText (name_of o)
unfolding name_of c_str
name_of-IsText none h = refl
name_of-IsText (some path) h = copied-text 256 path h

name_of-short : (o : Option Bytes) → length (name_of o) < 256
unfolding name_of
name_of-short none = omega arith
name_of-short (some path) = length-copied 256 path (omega arith)

region_of-InRange : (f : MapsFields) → IsStored f → InRange (region_of f)
unfolding region_of
region_of-InRange f h = record {
  start_word = h.start_word;
  end_word = h.end_word;
  offset_word = h.offset_word;
  prot_int = omega (arith, prot_of-small f.perms);
  flags_int = ground arith;
  name_short = name_of-short f.path;
  name_text = name_of-IsText f.path h.path_text;
}

region_from-InRange : (o : Option MapsFields) → Holds IsStored o → Holds InRange (region_from o)
unfolding region_from
region_from-InRange none h = tt
region_from-InRange (some f) h = region_of-InRange f h

-- What is stored of a line, as the C string that `fgets` leaves, is in the range of its C types:
-- the addresses are an `unsigned long`, the protection and the flags an `int`, and the name is a C
-- string that ends inside its 256 bytes.
pub parse_maps_line-InRange : (line : Bytes) → Holds InRange (parse_maps_line (c_str line))
unfolding parse_maps_line
parse_maps_line-InRange line =
    region_from-InRange (scan_maps (c_str line))
      (scan_maps-IsStored (c_str line) (c_str-c_str line))
