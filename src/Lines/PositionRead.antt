-- ===== src/Lines/PositionRead.antt =====
-- A position that is printed as `file:line:column:` is read back.
use duck_hunt.Prelude.{
  ℕ, zero, suc, ◌+◌, ◌-◌, ◌*◌, ◌/◌, ◌%◌, ◌^◌, ◌<◌, ◌≤◌, min, ◌==◌, ◌≡◌, refl, sym, ap, ap₂, ◌∙◌,
  leb, ltb, Bool, Bool-cases, inl, inr, true, false, ◌&&◌, none, some, [], ◌∷◌, ◌++◌, Text, length,
  take, drop, drop_while, is_digit, arith, length-append, if◌then◌else◌,
}
use duck_hunt.Prelude.Int.{pos, minus_one}
use duck_hunt.Lines.{split_at_delim}
use duck_hunt.Lines.Numbers.{stoi, digits, starts_with_digit, is_white, signed, non_negative}
use duck_hunt.Lines.Positions.{
  no_position, parse_file_line_column, find_line_number, at_colon, parse_numbers, with_line_num,
  parse_column, colon, has_colon, starts_with_letter, or_minus_one, split_numbers, unnumbered,
  max_file_path_length,
}
use duck_hunt.Files.{to_decimal, to_decimal_from}

digit_value : (n : ℕ) → n < 10 → (is_digit (b'0' + n) ≡ true) × ((b'0' + n) - b'0' ≡ n)
digit_value n h = (ground (arith, h), omega (arith, h))

digits_cons :
    (n c : ℕ) (s : Text) → is_digit c ≡ true → digits n (c ∷ s) ≡ digits (n * 10 + (c - b'0')) s
digits_cons n c s h = rw h refl

to_decimal_from-digits :
    (f n : ℕ) (out : Text) → n < f → digits 0 (to_decimal_from f n out) ≡ digits n out
unfolding to_decimal_from
to_decimal_from-digits zero n out h = absurd (omega (arith, h))
to_decimal_from-digits (suc f) n out h = elim (Bool-cases (ltb n 10)) [
  | inl s ↦
      let small : n < 10 = ground (arith, s) in
      rw s (
        digits_cons 0 (b'0' + n) out (digit_value n small).0
        ∙ ap (λ (k : ℕ). digits k out) (omega arith))
  | inr s ↦
      let big : 10 ≤ n = ground (arith, s) in
      rw s (
        to_decimal_from-digits f (n / 10) ((b'0' + n % 10) ∷ out) (omega (arith, h, big))
        ∙ digits_cons (n / 10) (b'0' + n % 10) out (digit_value (n % 10) (omega arith)).0
        ∙ ap (λ (k : ℕ). digits k out) (omega arith))
]

-- A text that starts with a digit and has digits only.
record Digits (t : Text) : Type 0 where
  first : ℕ
  others : Text
  shape : t ≡ first ∷ others
  first_digit : is_digit first ≡ true
  no_colon : has_colon t ≡ false

no_colon_digit : (c : ℕ) → is_digit c ≡ true → (c == colon) ≡ false
no_colon_digit c h = ground (arith, h)

Digits-cons : (c : ℕ) (s : Text) → is_digit c ≡ true → has_colon s ≡ false → Digits (c ∷ s)
Digits-cons c s h k = record {
  first = c;
  others = s;
  shape = refl;
  first_digit = h;
  no_colon = rw (no_colon_digit c h) k;
}

to_decimal_from-Digits :
    (f n : ℕ) (out : Text) → n < f → has_colon out ≡ false → Digits (to_decimal_from f n out)
unfolding to_decimal_from
to_decimal_from-Digits zero n out h k = absurd (omega (arith, h))
to_decimal_from-Digits (suc f) n out h k = elim (Bool-cases (ltb n 10)) [
  | inl s ↦ rw s (Digits-cons (b'0' + n) out (digit_value n (ground (arith, s))).0 k)
  | inr s ↦
      let big : 10 ≤ n = ground (arith, s) in
      let d = (digit_value (n % 10) (omega arith)).0 in
      rw s (
        to_decimal_from-Digits f (n / 10) ((b'0' + n % 10) ∷ out) (omega (arith, h, big))
          (rw (no_colon_digit (b'0' + n % 10) d) k))
]

to_decimal-Digits : (n : ℕ) → Digits (to_decimal n)
to_decimal-Digits n = to_decimal_from-Digits (suc n) n [] (omega arith) refl

signed-digits :
    (limit c : ℕ) (s : Text)
    → is_digit c ≡ true
    → signed limit (c ∷ s) ≡ non_negative limit (digits 0 (c ∷ s))
signed-digits limit c s h =
    let dash : (c == b'-') ≡ false = ground (arith, h) in
    let plus : (c == b'+') ≡ false = ground (arith, h) in rw (dash, plus, h) refl

stoi_cons :
    (c : ℕ) (s : Text) (n : ℕ)
    → is_digit c ≡ true
    → digits 0 (c ∷ s) ≡ n
    → n < 2 ^ 31
    → stoi (c ∷ s) ≡ some (pos n)
unfolding stoi drop_while
stoi_cons c s n h e k =
    let white : is_white c ≡ false = ground (arith, h) in
    let fits : ltb n (2 ^ 31) ≡ true = ground (arith, k) in
    ap (λ (b : Bool). signed (2 ^ 31) (if b then drop_while is_white s else c ∷ s)) white
    ∙ signed-digits (2 ^ 31) c s h
    ∙ ap (non_negative (2 ^ 31)) e
    ∙ ap (λ (b : Bool). if b then some (pos n) else none) fits

stoi-to_decimal : (n : ℕ) → n < 2 ^ 31 → stoi (to_decimal n) ≡ some (pos n)
stoi-to_decimal n h =
    let d = to_decimal-Digits n in
    ap stoi d.shape
    ∙ stoi_cons d.first d.others n d.first_digit
        (ap (digits 0) (sym d.shape) ∙ to_decimal_from-digits (suc n) n [] (omega arith)) h

starts_with_digit-to_decimal : (n : ℕ) (s : Text) → starts_with_digit (to_decimal n ++ s) ≡ true
starts_with_digit-to_decimal n s =
    let d = to_decimal-Digits n in ap (λ t. starts_with_digit (t ++ s)) d.shape ∙ d.first_digit

starts_with_digit_decimal : (n : ℕ) → starts_with_digit (to_decimal n) ≡ true
starts_with_digit_decimal n =
    let d = to_decimal-Digits n in ap starts_with_digit d.shape ∙ d.first_digit

no_colon_cons :
    (c : ℕ) (a : Text) → has_colon (c ∷ a) ≡ false → ((c == colon) ≡ false) × (has_colon a ≡ false)
no_colon_cons c a h = elim (Bool-cases (c == colon)) [
  | inl e ↦ absurd (ground (arith, rw e at h))
  | inr n ↦ (n, rw n at h)
]

-- What a colon cuts.
split_at_colon : (a s : Text) → has_colon a ≡ false → split_at_delim colon (a ++ colon ∷ s) ≡ (a, s)
unfolding split_at_delim
split_at_colon [] s h = refl
split_at_colon (c ∷ a) s h =
    let (n, r) = no_colon_cons c a h in
    rw n (ap (λ (p : Text × Text). (c ∷ p.0, p.1)) (split_at_colon a s r))

has_colon-append : (a s : Text) → has_colon (a ++ colon ∷ s) ≡ true
has_colon-append [] s = refl
has_colon-append (c ∷ a) s = ground (arith, has_colon-append a s)

take_path : (a s : Text) → take (length a) (a ++ s) ≡ a
take_path [] s = refl
take_path (c ∷ a) s = ap (◌∷◌ c) (take_path a s)

drop_path : (a : Text) (c : ℕ) (s : Text) → drop (suc (length a)) (a ++ c ∷ s) ≡ s
drop_path [] c s = refl
drop_path (x ∷ a) c s = drop_path a c s

find_line_number-append :
    (drive : Bool) (k : ℕ) (a s : Text)
    → has_colon a ≡ false
    → starts_with_digit s ≡ true
    → (k + length a == 0) ≡ false
    → (k + length a == 1 && drive) ≡ false
    → find_line_number drive k (a ++ colon ∷ s) ≡ some (k + length a)
unfolding find_line_number
find_line_number-append drive k [] s h d z o =
    let same : k ≡ k + length {A = ℕ} [] = omega arith in
    rw (ap (λ (j : ℕ). j == 0) same ∙ z, ap (λ (j : ℕ). j == 1 && drive) same ∙ o, d) (ap some same)
find_line_number-append drive k (c ∷ a) s h d z o =
    let (n, r) = no_colon_cons c a h in
    let same : suc k + length a ≡ k + length (c ∷ a) = omega arith in
    rw n (
      find_line_number-append drive (suc k) a s r d (ap (λ (j : ℕ). j == 0) same ∙ z)
        (ap (λ (j : ℕ). j == 1 && drive) same ∙ o)
      ∙ ap some same)

parse_column-read :
    (m : ℕ) (rest : Text) → m < 2 ^ 31 → parse_column (to_decimal m ++ colon ∷ rest) ≡ pos m
unfolding parse_column
parse_column-read m rest h =
    ap
      (λ (b : Bool).
        if b && has_colon (to_decimal m ++ colon ∷ rest)
        then or_minus_one (stoi (split_at_delim colon (to_decimal m ++ colon ∷ rest)).0)
        else minus_one)
      (starts_with_digit-to_decimal m (colon ∷ rest))
    ∙ ap
        (λ (b : Bool).
          if b
          then or_minus_one (stoi (split_at_delim colon (to_decimal m ++ colon ∷ rest)).0)
          else minus_one)
        (has_colon-append (to_decimal m) rest)
    ∙ ap (λ (p : Text × Text). or_minus_one (stoi p.0))
        (split_at_colon (to_decimal m) rest (to_decimal-Digits m).no_colon)
    ∙ ap or_minus_one (stoi-to_decimal m h)

parse_numbers-read :
    (file : Text) (n m : ℕ) (rest : Text)
    → n < 2 ^ 31
    → m < 2 ^ 31
    → parse_numbers file (to_decimal n ++ colon ∷ (to_decimal m ++ colon ∷ rest))
      ≡ record { found = true; file = file; line_num = pos n; column = pos m }
unfolding parse_numbers
parse_numbers-read file n m rest h k =
    let behind = to_decimal m ++ colon ∷ rest in
    let numbers = to_decimal n ++ colon ∷ behind in
    ap
      (λ (b : Bool).
        if b then split_numbers file (split_at_delim colon numbers) else unnumbered file)
      (has_colon-append (to_decimal n) behind)
    ∙ ap (split_numbers file) (split_at_colon (to_decimal n) behind (to_decimal-Digits n).no_colon)
    ∙ ap
        (λ (b : Bool).
          if b then with_line_num file behind (stoi (to_decimal n)) else unnumbered file)
        (starts_with_digit_decimal n)
    ∙ ap (with_line_num file behind) (stoi-to_decimal n h)
    ∙ ap (λ c. record { found = true; file = file; line_num = pos n; column = c })
        (parse_column-read m rest k)

letter-append :
    (a s : Text) → (length a == 0) ≡ false → starts_with_letter (a ++ s) ≡ starts_with_letter a
letter-append [] s h = absurd (ground (arith, h))
letter-append (c ∷ a) s h = refl

at_colon-append :
    (file numbers : Text)
    → length file ≤ max_file_path_length
    → at_colon (file ++ colon ∷ numbers) (some (length file)) ≡ parse_numbers file numbers
at_colon-append file numbers l =
    let line = file ++ colon ∷ numbers in
    let longer : length line ≡ length file + suc (length numbers) =
      length-append file (colon ∷ numbers) in
    let inside : leb (min (length line) (max_file_path_length + 20)) (length file) ≡ false =
      ground (arith, longer, l) in
    let short : ltb max_file_path_length (length file) ≡ false = ground (arith, l) in
    ap
      (λ (b : Bool).
        if b
        then no_position
        else if ltb max_file_path_length (length file)
        then unnumbered (take (length file) line)
        else parse_numbers (take (length file) line) (drop (suc (length file)) line))
      inside
    ∙ ap
        (λ (b : Bool).
          if b
          then unnumbered (take (length file) line)
          else parse_numbers (take (length file) line) (drop (suc (length file)) line))
        short
    ∙ ap₂ parse_numbers (take_path file (colon ∷ numbers)) (drop_path file colon numbers)

-- A line that starts with a file's name, a line number and a column, each followed by a colon, is read
-- back by `ParseFileLineColumn`, where the name has no colon, is not empty, is no single letter and
-- has at most 500 bytes, and the numbers fit an `int`.
pub parse_file_line_column-to_decimal :
    (file : Text) (n m : ℕ) (rest : Text)
    → has_colon file ≡ false
    → (length file == 0) ≡ false
    → (length file == 1 && starts_with_letter file) ≡ false
    → length file ≤ max_file_path_length
    → n < 2 ^ 31
    → m < 2 ^ 31
    → parse_file_line_column
        (file ++ colon ∷ (to_decimal n ++ colon ∷ (to_decimal m ++ colon ∷ rest)))
      ≡ record { found = true; file = file; line_num = pos n; column = pos m }
unfolding parse_file_line_column
parse_file_line_column-to_decimal file n m rest h z o l i j =
    let numbers = to_decimal n ++ colon ∷ (to_decimal m ++ colon ∷ rest) in
    let line = file ++ colon ∷ numbers in
    let same : 0 + length file ≡ length file = omega arith in
    ap (λ d. at_colon line (find_line_number d 0 line)) (letter-append file (colon ∷ numbers) z)
    ∙ ap (at_colon line) (
        find_line_number-append (starts_with_letter file) 0 file numbers h
          (starts_with_digit-to_decimal n (colon ∷ (to_decimal m ++ colon ∷ rest)))
          (ap (λ (k : ℕ). k == 0) same ∙ z)
          (ap (λ (k : ℕ). k == 1 && starts_with_letter file) same ∙ o))
    ∙ ap (λ k. at_colon line (some k)) same
    ∙ at_colon-append file numbers l
    ∙ parse_numbers-read file n m rest i j
