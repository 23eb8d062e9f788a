-- ===== src/Common.antt =====
-- The string helpers of src/common.c. A buffer is the C string that it holds; `none` is NULL.
pub mod Buffers
mod Examples
use user_level_checkpoint_re.Base.{
  length, ltb, ◌^◌, ℕ, zero, Bool, true, false, ◌&&◌, Option, none, some, [], ◌∷◌, ◌++◌, ◌==◌,
  if◌then◌else◌, Bytes, all, Status, done, failed,
}
use user_level_checkpoint_re.Base.Int.{ℤ, pos, negsuc, leb_ℤ, to_int}
use user_level_checkpoint_re.Cstring.{snprintf, is_digit}

abbrev pub max_path : ℕ
max_path = 512

-- What `snprintf(dst, size, …) >= (int) size` leaves in `dst`, and the status that is returned, for a
-- size that an `int` holds and a text that is not longer than one says.
unfoldable pub formatted : ℕ → Bytes → Bytes × Status
unfolding snprintf
formatted size text =
    let (stored, truncated) = snprintf size text in (stored, if truncated then failed else done)

-- What `snprintf` returns: an `int`, which is -1 where it does not hold the length.
abbrev pub printed : Bytes → ℤ
printed text = if ltb (length text) (2 ^ 31) then pos (length text) else negsuc 0

-- The same status for any `size_t`, which the sources convert to `int`.
unfoldable pub sized_status : ℕ → Bytes → Status
sized_status size text = if leb_ℤ (to_int (pos size)) (printed text) then failed else done

-- `ulcr_copy_string`, from its old buffer: the buffer and the status.
unfoldable pub copy_string : Option Bytes → ℕ → Option Bytes → Option Bytes × Status
unfolding formatted sized_status
copy_string (some dst) size (some src) =
    if size == 0 then (some dst, failed) else (some (formatted size src).0, sized_status size src)
copy_string dst size src = (dst, failed)

-- `ulcr_path_join`
unfoldable pub path_join : Option Bytes → ℕ → Option Bytes → Option Bytes → Option Bytes × Status
unfolding formatted sized_status
path_join (some buffer) size (some left) (some right) =
    if size == 0
    then (some buffer, failed)
    else (some (formatted size (left ++ b'/' ∷ right)).0, sized_status size (left ++ b'/' ∷ right))
path_join buffer size left right = (buffer, failed)

-- The buffer after a call on buffers that are not NULL.
unfoldable pub copied : ℕ → Bytes → Bytes
unfolding formatted
copied size src = (formatted size src).0

unfoldable pub joined : ℕ → Bytes → Bytes → Bytes
unfolding formatted
joined size left right = (formatted size (left ++ b'/' ∷ right)).0

-- `ulcr_is_numeric`
unfoldable pub is_numeric : Option Bytes → Bool
unfolding is_digit
is_numeric none = false
is_numeric (some []) = false
is_numeric (some (c ∷ cs)) = all is_digit (c ∷ cs)
