-- ===== src/Control/PidText.antt =====
-- The text that src/manager.c writes to the pid file, and reading it back.
use user_level_checkpoint_re.Base.{
  ℕ, ◌≡◌, refl, ◌∙◌, ap, Bool, true, not, some, [], ◌∷◌, ◌==◌, Bytes, all, take, take_all, done,
  arith,
}
use user_level_checkpoint_re.Base.Int.{ℤ, pos, ltb_ℤ}
use user_level_checkpoint_re.Common.Buffers.{copied_fits}
use user_level_checkpoint_re.Cstring.{c_str}
use user_level_checkpoint_re.Cstring.Number.{print_ℤ_onto, atoi, char_digit}
use user_level_checkpoint_re.Cstring.Number.RoundTrip.{IsInt, atoi-print_ℤ_onto}
use user_level_checkpoint_re.Cstring.Number.Shape.{print_ℤ_onto-all, length-print_ℤ_onto_before}
use user_level_checkpoint_re.Files.{Files}
use user_level_checkpoint_re.Files.Calm.{IsCalm}
use user_level_checkpoint_re.Files.Posix.{IsPosix}
use user_level_checkpoint_re.Storage.Reading.{read_text_file_calm}
use user_level_checkpoint_re.Control.{pid_text, pid_of_text, read_pid_from_file}
use user_level_checkpoint_re.Control.Pids.{IsPid}

abbrev is_set : ℕ → Bool
is_set c = not (c == 0)

c_str_set : (s : Bytes) → all is_set s ≡ true → c_str s ≡ s
unfolding c_str
c_str_set [] h = refl
c_str_set (c ∷ cs) h = ground (arith, c_str_set cs)

pid_text_fits : (pid : ℤ) → IsInt pid → pid_text pid ≡ print_ℤ_onto pid (b'\n' ∷ [])
pid_text_fits pid h =
    copied_fits 32 (print_ℤ_onto pid (b'\n' ∷ []))
      (omega (arith, length-print_ℤ_onto_before pid (b'\n' ∷ []) h))

-- What is read of a pid file.
pid_of_text-pid_text :
    (old pid : ℤ)
    → IsPid pid
    → pid_of_text old (some (c_str (take 63 (pid_text pid)))) ≡ (pid, done)
unfolding pid_of_text
pid_of_text-pid_text old pid (positive, h) =
    let text = print_ℤ_onto pid (b'\n' ∷ []) in
    let whole : take 63 text ≡ text =
      take_all 63 text (omega (arith, length-print_ℤ_onto_before pid (b'\n' ∷ []) h)) in
    let set =
      c_str_set text (print_ℤ_onto-all is_set (λ c e. ground arith) pid (b'\n' ∷ []) refl) in
    let number : atoi text ≡ pid =
      atoi-print_ℤ_onto pid (b'\n' ∷ []) h (unfold char_digit in refl) in
    let above : ltb_ℤ (pos 0) pid ≡ true = ground arith in
    rw (pid_text_fits pid h, whole, set, number, above) refl

module _ (fs : Files) (px : IsPosix fs) (Calm : fs.World → Type 0) (cm : IsCalm fs px Calm) where
  -- A pid file that holds the text of a pid gives this pid.
  pub read_pid_from_file-pid_text :
      (path : Bytes) (old pid : ℤ) (w : fs.World)
      → IsPid pid
      → Calm w
      → px.file w path ≡ some (pid_text pid)
      → (read_pid_from_file fs path old w).0 ≡ (pid, done)
  unfolding read_pid_from_file
  read_pid_from_file-pid_text path old pid w h calm here =
      ap (pid_of_text old) (read_text_file_calm fs px Calm cm path 64 w (pid_text pid) calm here)
      ∙ pid_of_text-pid_text old pid h
