-- ===== src/Storage/Directory.antt =====
-- `ulcr_ensure_directory` of src/common.c and the files.
use user_level_checkpoint_re.Base.{
  ◌≡◌, refl, ◌∙◌, ◌==◌, [], ◌∷◌, ◌++◌, Bytes, Bool-cases, Status-cases, inl, inr,
}
use user_level_checkpoint_re.Common.{max_path, formatted}
use user_level_checkpoint_re.Files.{Files}
use user_level_checkpoint_re.Files.Posix.{IsPosix}
use user_level_checkpoint_re.Storage.{made, ensure_from, ensure_copied, ensure_directory}

module _ (fs : Files) (px : IsPosix fs) where
  ensure_from-file :
      (before rest : Bytes) (w : fs.World) (q : Bytes)
      → px.file (ensure_from fs before rest w).1 q ≡ px.file w q
  unfolding ensure_from
  ensure_from-file before [] w q = px.mkdir-file before w q
  ensure_from-file before (c ∷ cs) w q = elim (Bool-cases (c == b'/')) [
    | inr other ↦ rw other (ensure_from-file (before ++ c ∷ []) cs w q)
    | inl slash ↦ rw slash (elim (Bool-cases (made fs (fs.mkdir before w).0)) [
      | inl ok ↦ rw ok (
          ensure_from-file (before ++ c ∷ []) cs (fs.mkdir before w).1 q ∙ px.mkdir-file before w q)
      | inr refused ↦ rw refused (px.mkdir-file before w q)
    ])
  ]

  ensure_copied-file :
      (tmp : Bytes) (w : fs.World) (q : Bytes) → px.file (ensure_copied fs tmp w).1 q ≡ px.file w q
  unfolding ensure_copied
  ensure_copied-file [] w q = ensure_from-file [] [] w q
  ensure_copied-file (c ∷ cs) w q = ensure_from-file (c ∷ []) cs w q

  -- Making directories changes no file.
  pub ensure_directory-file :
      (path : Bytes) (w : fs.World) (q : Bytes)
      → px.file (ensure_directory fs path w).1 q ≡ px.file w q
  unfolding ensure_directory
  ensure_directory-file path w q = elim (Status-cases (formatted max_path path).1) [
    | inl ok ↦ rw ok (ensure_copied-file (formatted max_path path).0 w q)
    | inr long ↦ rw long refl
  ]
