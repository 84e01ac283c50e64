-- ===== src/Text/Laws.antt =====
-- Laws of the string operations: decimal printing is read back, and joined texts are split.
use Prim.Native.Char.{Char, code}
use Prim.Native.String.{[], ◌∷◌}
use mathlib.Core.Path.{ap₂}
use text.Mathlib.TextLemmas.{
  nil-append, cons-append, nil≢cons, head-eq_of_cons-eq, tail-eq_of_cons-eq,
}
use text.Mathlib.TextEquality.{Char-path}
use shiplog_prototype.Prelude.{
  false, and-true, ℕ, zero, suc, ◌+◌, ◌/◌, ◌%◌, ◌<◌, String, true, leb, ◌≡◌, refl, ◌≢◌, sym, ap,
  ◌∙◌, arith, Bool-cases, inl, inr,
}
use shiplog_prototype.Text.{
  append, number_from, number_of, digit, decimal_from, decimal, le_text, all_digits, is_digit,
  is_decimal, trim_start, trim_end, trim, keep_char, is_space,
}

digit_code : (d : ℕ) → d < 10 → code (digit d) ≡ 48 + d
unfolding digit
digit_code zero h = refl
digit_code (suc zero) h = refl
digit_code (suc (suc zero)) h = refl
digit_code (suc (suc (suc zero))) h = refl
digit_code (suc (suc (suc (suc zero)))) h = refl
digit_code (suc (suc (suc (suc (suc zero))))) h = refl
digit_code (suc (suc (suc (suc (suc (suc zero)))))) h = refl
digit_code (suc (suc (suc (suc (suc (suc (suc zero))))))) h = refl
digit_code (suc (suc (suc (suc (suc (suc (suc (suc zero)))))))) h = refl
digit_code (suc (suc (suc (suc (suc (suc (suc (suc (suc n))))))))) h = omega arith

-- The last digit, read after the number that the others stand for.
read_digit :
    (n : ℕ) (acc : String) → number_from (n / 10) (digit (n % 10) ∷ acc) ≡ number_from n acc
unfolding number_from
read_digit n acc = ap (λ k. number_from k acc) (omega (arith, digit_code (n % 10) (omega arith)))

-- The text of a number, with the digits that follow it, reads as the number shifted by them.
number_from-decimal :
    (fuel n : ℕ) (acc : String)
    → n < fuel
    → number_from 0 (decimal_from fuel n acc) ≡ number_from n acc
unfolding decimal_from number_from
number_from-decimal zero n acc h = elim h [ ]
number_from-decimal (suc fuel) n acc h = elim (Bool-cases (leb n 9)) [
  | inl small ↦ rw small (ap (λ k. number_from k acc) (omega (arith, digit_code n (ground arith))))
  | inr large ↦ rw large (number_from-decimal fuel (n / 10) _ (ground arith) ∙ read_digit n acc)
]

pub number_of-decimal : (n : ℕ) → number_of (decimal n) ≡ n
unfolding number_of decimal
number_of-decimal n = number_from-decimal (suc n) n [] (omega arith)

-- No character of the text has this code.
abbrev pub Lacks : ℕ → String → Type 0
Lacks k [] = Unit
Lacks k (c ∷ s) = (code c ≢ k) × Lacks k s

-- Two texts that are split at the first character with some code have equal parts.
pub split_at_first :
    (sep : Char) (a b r s : String)
    → Lacks (code sep) a
    → Lacks (code sep) b
    → append a (sep ∷ r) ≡ append b (sep ∷ s)
    → (a ≡ b) × (r ≡ s)
split_at_first sep [] [] r s la lb e =
    (refl, tail-eq_of_cons-eq (sym (nil-append _) ∙ e ∙ nil-append _))
split_at_first sep [] (d ∷ b) r s la (n, lb) e =
    absurd (n (ap code (sym (head-eq_of_cons-eq (sym (nil-append _) ∙ e ∙ cons-append d b _)))))
split_at_first sep (c ∷ a) [] r s (n, la) lb e =
    absurd (n (ap code (head-eq_of_cons-eq (sym (cons-append c a _) ∙ e ∙ nil-append _))))
split_at_first sep (c ∷ a) (d ∷ b) r s (_, la) (_, lb) e =
    let joined = sym (cons-append c a _) ∙ e ∙ cons-append d b _ in
    let (same, rest) = split_at_first sep a b r s la lb (tail-eq_of_cons-eq joined) in
    (ap₂ ◌∷◌ (head-eq_of_cons-eq joined) same, rest)

pub le_text_refl : (s : String) → le_text s s ≡ true
unfolding le_text
le_text_refl [] = refl
le_text_refl (c ∷ s) = ground (arith, le_text_refl s)

pub le_text_total : (s t : String) → le_text s t ≡ false → le_text t s ≡ true
unfolding le_text
le_text_total [] t h = cc
le_text_total (c ∷ s) [] h = refl
le_text_total (c ∷ s) (d ∷ t) h = ground (arith, le_text_total s t)

pub le_text_trans : (s t u : String) → le_text s t ≡ true → le_text t u ≡ true → le_text s u ≡ true
unfolding le_text
le_text_trans [] t u h k = refl
le_text_trans (c ∷ s) [] u h k = cc
le_text_trans (c ∷ s) (d ∷ t) [] h k = cc
le_text_trans (c ∷ s) (d ∷ t) (e ∷ u) h k = ground (arith, le_text_trans s t u)

pub le_text_antisym : (s t : String) → le_text s t ≡ true → le_text t s ≡ true → s ≡ t
unfolding le_text
le_text_antisym [] [] h k = refl
le_text_antisym [] (d ∷ t) h k = cc
le_text_antisym (c ∷ s) [] h k = cc
le_text_antisym (c ∷ s) (d ∷ t) h k =
    ap₂ ◌∷◌ (Char-path c d (ground arith)) (le_text_antisym s t (ground arith) (ground arith))

decimal_from-digits :
    (fuel n : ℕ) (acc : String)
    → n < fuel
    → all_digits acc ≡ true
    → all_digits (decimal_from fuel n acc) ≡ true
unfolding decimal_from all_digits is_digit
decimal_from-digits zero n acc h k = elim h [ ]
decimal_from-digits (suc fuel) n acc h k = elim (Bool-cases (leb n 9)) [
  | inl small ↦ rw small (ground (arith, digit_code n))
  | inr large ↦
      rw large
        (decimal_from-digits fuel (n / 10) _ (ground arith) (ground (arith, digit_code (n % 10))))
]

-- The text of a number is never empty.
decimal_from-cons :
    (fuel n : ℕ) (acc : String)
    → n < fuel
    → (c : Char) × (s : String) × (decimal_from fuel n acc ≡ c ∷ s)
unfolding decimal_from
decimal_from-cons zero n acc h = elim h [ ]
decimal_from-cons (suc fuel) n acc h = elim (Bool-cases (leb n 9)) [
  | inl small ↦ (digit n, acc, rw small)
  | inr large ↦ rw large (decimal_from-cons fuel (n / 10) _ (ground arith))
]

is_decimal_of_digits :
    (s : String)
    → all_digits s ≡ true
    → ((c : Char) × (t : String) × (s ≡ c ∷ t))
    → is_decimal s ≡ true
unfolding is_decimal
is_decimal_of_digits [] h (c, t, e) = absurd (nil≢cons e)
is_decimal_of_digits (c ∷ s) h _ = h

pub is_decimal-decimal : (n : ℕ) → is_decimal (decimal n) ≡ true
unfolding decimal all_digits
is_decimal-decimal n =
    is_decimal_of_digits _ (decimal_from-digits (suc n) n [] (omega arith) refl)
      (decimal_from-cons (suc n) n [] (omega arith))

trim_start-digits : (s : String) → all_digits s ≡ true → trim_start s ≡ s
unfolding trim_start all_digits is_digit is_space
trim_start-digits [] h = refl
trim_start-digits (c ∷ s) h = ground arith

keep_char-digit : (c : Char) (s : String) → is_digit (code c) ≡ true → keep_char c s ≡ c ∷ s
unfolding keep_char is_digit is_space
keep_char-digit c [] h = ground arith
keep_char-digit c (d ∷ s) h = refl

trim_end-digits : (s : String) → all_digits s ≡ true → trim_end s ≡ s
unfolding trim_end all_digits
trim_end-digits [] h = refl
trim_end-digits (c ∷ s) h =
    let (here, later) = and-true _ _ h in rw (trim_end-digits s later) (keep_char-digit c s here)

-- A number is printed with no space to trim.
pub trim-decimal : (n : ℕ) → trim (decimal n) ≡ decimal n
unfolding trim decimal all_digits
trim-decimal n =
    let digits = decimal_from-digits (suc n) n [] (omega arith) refl in
    rw (trim_start-digits _ digits) (trim_end-digits _ digits)

-- A number is recovered from its text, so different numbers print differently.
pub decimal_injective : (m n : ℕ) → decimal m ≡ decimal n → m ≡ n
decimal_injective m n e = sym (number_of-decimal m) ∙ ap number_of e ∙ number_of-decimal n

pub Lacks-append : (k : ℕ) (s t : String) → Lacks k s → Lacks k t → Lacks k (append s t)
Lacks-append k [] t h l = rw nil-append l
Lacks-append k (c ∷ s) t (n, h) l = rw cons-append (n, Lacks-append k s t h l)

Lacks-digits : (k : ℕ) (s : String) → 57 < k → all_digits s ≡ true → Lacks k s
unfolding all_digits is_digit
Lacks-digits k [] h d = tt
Lacks-digits k (c ∷ s) h d =
    let (here, later) = and-true _ _ d in (ground arith, Lacks-digits k s h later)

-- The text of a number holds no character beyond the digits.
pub Lacks-decimal : (k n : ℕ) → 57 < k → Lacks k (decimal n)
unfolding decimal all_digits
Lacks-decimal k n h = Lacks-digits k _ h (decimal_from-digits (suc n) n [] (omega arith) refl)
