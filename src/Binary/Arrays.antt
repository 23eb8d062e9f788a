-- ===== src/Binary/Arrays.antt =====
-- Character arrays, padding, and the combinations of fields and of array elements.
use user_level_checkpoint_re.Base.{
  ℕ, zero, suc, ◌+◌, ◌-◌, ◌*◌, ◌<◌, ◌≡◌, refl, ◌∙◌, ap, ap₂, Bool, true, false, List, [], ◌∷◌, ◌++◌,
  Bytes, length, length-append, length-take, take, take-append_le, drop, drop-append, append_assoc,
  append-nil, Bool-cases, inl, inr, ◌==◌, arith, ◌^◌,
}
use user_level_checkpoint_re.Base.Int.{ℤ, pos, negsuc, int_of_bits}
use user_level_checkpoint_re.Cstring.{c_str}
use user_level_checkpoint_re.Cstring.Number.RoundTrip.{IsInt}
use user_level_checkpoint_re.Binary.{Codec}
use user_level_checkpoint_re.Binary.Words.{
  put_word, get_word, length-put_word, get_word-put_word, bits_of_int, bits_of_long, long_of_bits,
  IsLong,
}

abbrev pub zeros : ℕ → Bytes
zeros zero = []
zeros (suc n) = 0 ∷ zeros n

pub length-zeros : (n : ℕ) → length (zeros n) ≡ n
length-zeros zero = refl
length-zeros (suc n) = ap suc (length-zeros n)

-- An unsigned word of `k` bytes.
abbrev pub word : ℕ → Codec ℕ
word k = record {
  size = k;
  put = put_word k;
  get = get_word k;
  Fits = λ n. n < 256 ^ k;
  length-put = length-put_word k;
  get-put = get_word-put_word k;
}

-- A value stored by way of another.
module _ {A B : Type 0} (c : Codec A) (to : B → A) (from : A → B) (Fits : B → Type 0)
    (fits : (b : B) → Fits b → c.Fits (to b)) (back : (b : B) → Fits b → from (to b) ≡ b) where
  pub via-get-put : (b : B) (rest : Bytes) → Fits b → from (c.get (c.put (to b) ++ rest)) ≡ b
  via-get-put b rest h = ap from (c.get-put (to b) rest (fits b h)) ∙ back b h

  abbrev pub via : Codec B
  via = record {
    size = c.size;
    put = λ b. c.put (to b);
    get = λ s. from (c.get s);
    Fits = Fits;
    length-put = λ b. c.length-put (to b);
    get-put = via-get-put;
  }

pub int-fits : (z : ℤ) → IsInt z → bits_of_int z < 256 ^ 4
unfolding bits_of_int
int-fits (pos n) h = omega arith
int-fits (negsuc n) h = omega arith

pub int-back : (z : ℤ) → IsInt z → int_of_bits (bits_of_int z) ≡ z
unfolding bits_of_int
int-back (pos n) h = ground arith
int-back (negsuc n) h = ground arith

-- `int` and `pid_t`
abbrev pub int : Codec ℤ
int = via (word 4) bits_of_int int_of_bits IsInt int-fits int-back

pub long-fits : (z : ℤ) → IsLong z → bits_of_long z < 256 ^ 8
unfolding bits_of_long
long-fits (pos n) h = omega arith
long-fits (negsuc n) h = omega arith

pub long-back : (z : ℤ) → IsLong z → long_of_bits (bits_of_long z) ≡ z
unfolding bits_of_long long_of_bits
long-back (pos n) h = ground arith
long-back (negsuc n) h = ground arith

-- `long long`
abbrev pub long : Codec ℤ
long = via (word 8) bits_of_long long_of_bits IsLong long-fits long-back

abbrev pub bit_of : Bool → ℕ
bit_of true = 1
bit_of false = 0

abbrev pub is_set : ℕ → Bool
is_set zero = false
is_set (suc n) = true

pub flag-fits : (b : Bool) → Unit {0} → bit_of b < 256 ^ 4
flag-fits true h = omega arith
flag-fits false h = omega arith

pub flag-back : (b : Bool) → Unit {0} → is_set (bit_of b) ≡ b
flag-back true h = refl
flag-back false h = refl

-- An `int` that the program only sets to 0 or 1.
abbrev pub flag : Codec Bool
flag = via (word 4) bit_of is_set (λ b. Unit) flag-fits flag-back

c_str-zero : (s t : Bytes) → c_str s ≡ s → c_str (s ++ 0 ∷ t) ≡ s
unfolding c_str
c_str-zero [] t h = refl
c_str-zero (c ∷ cs) t h = elim (Bool-cases (c == 0)) [
  | inl z ↦ cc (rw z at h)
  | inr n ↦ rw n (ap (◌∷◌ c) (c_str-zero cs t (cc (rw n at h))))
]

pub length-put_text : (size : ℕ) (s : Bytes) → length (take size (s ++ zeros size)) ≡ size
length-put_text size s =
    omega
      (arith, length-take size (s ++ zeros size), length-append s (zeros size), length-zeros size)

zeros_left : (k n : ℕ) → k < n → take (suc k) (zeros n) ≡ 0 ∷ take k (zeros (n - 1))
zeros_left k zero h = absurd (omega arith)
zeros_left k (suc n) h = ap (λ m. 0 ∷ take k (zeros m)) (omega arith)

pub get-put_text :
    (size : ℕ) (s rest : Bytes)
    → (length s < size) × (c_str s ≡ s)
    → c_str (take size (take size (s ++ zeros size) ++ rest)) ≡ s
get-put_text size s rest h =
    let stored = take size (s ++ zeros size) in
    let k : ℕ = size - length s - 1 in
    let left : size - length s ≡ suc k = omega arith in
    let over : size - length stored ≡ 0 = omega (arith, length-put_text size s) in
    ap c_str (
      take-append_le size stored rest (omega (arith, length-put_text size s))
      ∙ ap (λ n. stored ++ take n rest) over
      ∙ append-nil stored
      ∙ take-append_le size s (zeros size) (omega arith)
      ∙ ap (λ n. s ++ take n (zeros size)) left
      ∙ ap (λ z. s ++ z) (zeros_left k size (omega arith)))
    ∙ c_str-zero s (take k (zeros (size - 1))) h.1

-- The bytes that align the next field.
pub get-put_padding : (u : Unit {0}) (rest : Bytes) → Unit {0} → tt ≡ u
get-put_padding u rest h = refl

abbrev pub padding : ℕ → Codec (Unit {0})
padding size = record {
  size = size;
  put = λ u. zeros size;
  get = λ s. tt;
  Fits = λ u. Unit;
  length-put = λ u. length-zeros size;
  get-put = get-put_padding;
}

-- `char name[size]`
abbrev pub text : ℕ → Codec Bytes
text size = record {
  size = size;
  put = λ s. take size (s ++ zeros size);
  get = λ b. c_str (take size b);
  Fits = λ s. (length s < size) × (c_str s ≡ s);
  length-put = length-put_text size;
  get-put = get-put_text size;
}

-- One field after another.
module _ {A B : Type 0} (c : Codec A) (d : Codec B) where
  pub length-put_pair : (p : A × B) → length (c.put p.0 ++ d.put p.1) ≡ c.size + d.size
  length-put_pair p =
      omega (arith, length-append (c.put p.0) (d.put p.1), c.length-put p.0, d.length-put p.1)

  pub get-put_pair :
      (p : A × B) (rest : Bytes)
      → c.Fits p.0 × d.Fits p.1
      → ◌≡◌ {A = A × B}
          (
            c.get ((c.put p.0 ++ d.put p.1) ++ rest),
            d.get (drop c.size ((c.put p.0 ++ d.put p.1) ++ rest)),
          )
          p
  get-put_pair p rest h =
      let e = append_assoc (c.put p.0) (d.put p.1) rest in
      λ i. (
        (ap c.get e ∙ c.get-put p.0 (d.put p.1 ++ rest) h.0) i,
        (ap (λ s. d.get (drop c.size s)) e
              ∙ ap d.get (drop-append (c.put p.0) (d.put p.1 ++ rest) c.size (c.length-put p.0))
              ∙ d.get-put p.1 rest h.1)
            i,
      )

  abbrev pub pair : Codec (A × B)
  pair = record {
    size = c.size + d.size;
    put = λ p. c.put p.0 ++ d.put p.1;
    get = λ s. (c.get s, d.get (drop c.size s));
    Fits = λ p. c.Fits p.0 × d.Fits p.1;
    length-put = length-put_pair;
    get-put = get-put_pair;
  }

-- The elements of an array, one after the other.
module _ {A : Type 0} (c : Codec A) where
  unfoldable pub put_array : List A → Bytes
  put_array [] = []
  put_array (a ∷ l) = c.put a ++ put_array l

  unfoldable pub get_array : ℕ → Bytes → List A
  get_array zero s = []
  get_array (suc n) s = c.get s ∷ get_array n (drop c.size s)

  abbrev pub AllFit : List A → Type 0
  AllFit [] = Unit
  AllFit (a ∷ l) = c.Fits a × AllFit l

  pub length-put_array : (xs : List A) → length (put_array xs) ≡ c.size * length xs
  unfolding put_array
  length-put_array [] = omega arith
  length-put_array (x ∷ xs) =
      omega (arith, length-append (c.put x) (put_array xs), c.length-put x, length-put_array xs)

  pub get_array-put_array :
      (xs : List A) (rest : Bytes) → AllFit xs → get_array (length xs) (put_array xs ++ rest) ≡ xs
  unfolding put_array get_array
  get_array-put_array [] rest h = refl
  get_array-put_array (x ∷ xs) rest h =
      let e = append_assoc (c.put x) (put_array xs) rest in
      ap₂ ◌∷◌ (ap c.get e ∙ c.get-put x (put_array xs ++ rest) h.0) (
        ap (λ s. get_array (length xs) (drop c.size s)) e
        ∙ ap (get_array (length xs))
            (drop-append (c.put x) (put_array xs ++ rest) c.size (c.length-put x))
        ∙ get_array-put_array xs rest h.1)

  pub length-get_array : (n : ℕ) (s : Bytes) → length (get_array n s) ≡ n
  unfolding get_array
  length-get_array zero s = refl
  length-get_array (suc n) s = ap suc (length-get_array n (drop c.size s))
