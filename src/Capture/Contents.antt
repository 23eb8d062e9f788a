-- ===== src/Capture/Contents.antt =====
-- What `ulcr_capture_snapshot` of src/snapshot.c writes to the open file.
use user_level_checkpoint_re.Base.{
  ℕ, zero, suc, ◌+◌, ◌≤◌, ◌≡◌, refl, sym, ◌∙◌, ap, ap₂, false, Option, none, some, List, [], ◌∷◌,
  ◌++◌, Bytes, length, length-append, length-take, subst, append_assoc, append-nil, take, take_all,
  take-append-length, drop, drop-append, drop-nil, str_eq_refl, arith,
}
use user_level_checkpoint_re.Files.{Files}
use user_level_checkpoint_re.Files.Posix.{IsPosix, count_of, splice}
use user_level_checkpoint_re.Storage.{is_short}
use user_level_checkpoint_re.Tracer.{Tracer, IsTracer}

drop_past {ℓ} : {A : Type ℓ} → (xs : List A) (n : ℕ) → length xs ≤ n → drop n xs ≡ []
drop_past [] n h = drop-nil n
drop_past (x ∷ xs) zero h = absurd (omega arith)
drop_past (x ∷ xs) (suc n) h = drop_past xs n (omega arith)

-- Writing at the end, and over a part of the same length.
splice_end : (c b : Bytes) → splice (length c) b c ≡ c ++ b
splice_end c b =
    ap₂ (λ s t. s ++ (b ++ t)) (take_all (length c) c (omega arith))
      (drop_past c (length c + length b) (omega arith))
    ∙ ap (λ t. c ++ t) (append-nil b)

pub splice_part :
    (a b b' c : Bytes) (n : ℕ)
    → n ≡ length a
    → length b' ≡ length b
    → splice n b' (a ++ (b ++ c)) ≡ a ++ (b' ++ c)
splice_part a b b' c n e f =
    let g : n + length b' ≡ length (a ++ b) = e2 in
    ap₂ (λ s t. s ++ (b' ++ t)) (ap (λ k. take k (a ++ (b ++ c))) e ∙ take-append-length a (b ++ c))
      (ap₂ drop g (sym (append_assoc a b c)) ∙ drop-append (a ++ b) c (length (a ++ b)) refl)
  where
    e2 : n + length b' ≡ length (a ++ b)
    e2 = omega (arith, length-append a b)

pub whole_count :
    (count : Option ℕ) (bytes : Bytes) (size : ℕ)
    → length bytes ≡ size
    → is_short count size ≡ false
    → take (count_of count) bytes ≡ bytes
whole_count none bytes size k h = cc
whole_count (some n) bytes size k h =
    let e : n ≡ length bytes = ground arith in take_all n bytes (omega arith)

module _ (fs : Files) (px : IsPosix fs) (tr : Tracer fs) (tl : IsTracer fs px tr) (tmp : Bytes)
    (fd : ℕ) where
  open px use {file, target}

  -- The descriptor stands at the end of the file, which holds `c`.
  pub record Holds (w : fs.World) (c : Bytes) : Type 0 where
    pub at : target w fd ≡ some (tmp, length c)
    pub here : file w tmp ≡ some c

  pub write-Holds :
      (bytes c : Bytes) (w : fs.World)
      → Holds w c
      → Holds (fs.write fd bytes w).1 (c ++ take (count_of (fs.write fd bytes w).0) bytes)
  write-Holds bytes c w h =
      let n = count_of (fs.write fd bytes w).0 in
      let few = px.write-count fd bytes w in
      let e : length c + n ≡ length (c ++ take n bytes) =
        omega (arith, length-append c (take n bytes), length-take n bytes) in
      record {
        at = px.write-target fd bytes w tmp (length c) h.at ∙ ap (λ k. some (tmp, k)) e;
        here =
            px.write-file fd bytes w tmp (length c) tmp h.at
            ∙ rw (str_eq_refl tmp, h.here) (ap some (splice_end c (take n bytes)));
      }

  pub write_whole-Holds :
      (bytes c : Bytes) (size : ℕ) (w : fs.World)
      → length bytes ≡ size
      → is_short (fs.write fd bytes w).0 size ≡ false
      → Holds w c
      → Holds (fs.write fd bytes w).1 (c ++ bytes)
  write_whole-Holds bytes c size w e whole h =
      subst (λ t. Holds (fs.write fd bytes w).1 (c ++ t))
        (whole_count (fs.write fd bytes w).0 bytes size e whole) (write-Holds bytes c w h)
