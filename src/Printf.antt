-- ===== src/Printf.antt =====
-- src/vsprintf.c: formatted text. Characters are bytes, a string ends where its list ends, and the
-- text written to `buf` is the list returned. A field width or precision of -1 is `none`.
pub mod Decimal
mod Tests
use smor.Prelude.{
  ℕ, zero, suc, ◌+◌, ◌-◌, ◌*◌, ◌/◌, ◌%◌, ◌^◌, ◌≤◌, Bool, true, false, ◌&&◌, ◌||◌, not, ◌==◌, ltb,
  leb, if◌then◌else◌, Option, none, some, List, [], ◌∷◌, ◌++◌, length, replicate, Outcome, done,
  hang, undefined, ◌>>=◌,
}

abbrev pub is_digit : ℕ → Bool
is_digit c = leb 48 c && leb c 57

-- From a value `i` read so far. `i*10 + c - '0'` is computed from the left as an `int`, and an
-- overflow of the sum is undefined.
pub skip_atoi : (i : ℕ) → List ℕ → Outcome (ℕ × List ℕ)
skip_atoi i [] = done (i, [])
skip_atoi i (c ∷ s) =
    let rest = skip_atoi (i * 10 + c - 48) s in
    if is_digit c then (if ltb (i * 10 + c) (2 ^ 31) then rest else undefined) else done (i, c ∷ s)

-- the bits of `type`
pub record Flags : Type 0 where
  pub zeropad : Bool
  pub sign : Bool
  pub plus : Bool
  pub space : Bool
  pub left : Bool
  pub special : Bool
  pub small : Bool

abbrev pub no_flags : Flags
no_flags = record {
  zeropad = false;
  sign = false;
  plus = false;
  space = false;
  left = false;
  special = false;
  small = false;
}

-- the two tables of 36 digits
abbrev pub digit : (small : Bool) → ℕ → ℕ
digit small d = if ltb d 10 then 48 + d else if small then 87 + d else 55 + d

-- `do_div` divides an unsigned 64-bit number. The last digit comes first.
pub number_digits : ℕ → (small : Bool) → (num base : ℕ) → List ℕ
number_digits zero small num base = []
number_digits (suc fuel) small num base =
    let rest = number_digits fuel small (num / base) base in
    if num == 0 then [] else digit small (num % base) ∷ rest

-- `while (i-- > 0) *str++ = tmp[i]`, before the text `s`
pub reversed : List ℕ → (s : List ℕ) → List ℕ
reversed [] s = s
reversed (c ∷ tmp) s = reversed tmp (c ∷ s)

-- the sign character, none for 0, and the magnitude
abbrev pub sign_of : Flags → (num : ℕ) → Option ℕ × ℕ
sign_of f num =
    if f.sign && leb (2 ^ 63) num
    then (some 45, 2 ^ 64 - num)
    else ((if f.plus then some 43 else if f.space then some 32 else none), num)

abbrev pub chars : Option ℕ → List ℕ
chars none = []
chars (some c) = c ∷ []

abbrev pub prefix : Flags → (base : ℕ) → List ℕ
prefix f base =
    if f.special
    then (if base == 8 then 48 ∷ [] else if base == 16 then 48 ∷ digit f.small 33 ∷ [] else [])
    else []

-- `num` is a 64-bit pattern. `size` and `precision` serve as bounds of loops, so a negative value is
-- 0 here. A base out of range gives NULL, which the caller writes through; `tmp` has 36 bytes.
pub number : (num base size precision : ℕ) → Flags → Outcome (List ℕ)
unfolding number_digits reversed
number num base size precision f =
    let zeropad = f.zeropad && not f.left in
    let (sign, magnitude) = sign_of f num in
    let tmp = if magnitude == 0 then 48 ∷ [] else number_digits 64 f.small magnitude base in
    let digits = if ltb precision (length tmp) then length tmp else precision in
    let pad = size - length (chars sign) - length (prefix f base) - digits in
    let line =
      replicate (if zeropad || f.left then 0 else pad) 32
      ++ (chars sign
          ++ (prefix f base
              ++ (replicate (if zeropad then pad else 0) 48
                  ++ (replicate (digits - length tmp) 48
                      ++ (reversed tmp [] ++ replicate (if f.left then pad else 0) 32))))) in
    if ltb base 2 || ltb 36 base
    then undefined
    else if ltb 36 (length tmp)
    then undefined
    else done line

-- what `va_arg` finds: a word, a string, NULL as `none`, or a pointer to an `int`
pub data Arg : Type 0 where
  word : ℕ → Arg
  text : Option (List ℕ) → Arg
  int_ptr : Arg

-- the next argument as a word; one that is missing or of another kind is undefined
abbrev pub va_word : List Arg → Outcome (ℕ × List Arg)
va_word [] = undefined
va_word (word w ∷ args) = done (w, args)
va_word (text s ∷ args) = undefined
va_word (int_ptr ∷ args) = undefined

abbrev pub is_negative32 : ℕ → Bool
is_negative32 w = leb (2 ^ 31) (w % 2 ^ 32)

-- an `int32_t` as an `int64_t`
abbrev pub sign_extend : ℕ → ℕ
sign_extend w = if is_negative32 w then 2 ^ 64 - 2 ^ 32 + w % 2 ^ 32 else w % 2 ^ 32

abbrev pub get_qualified_integer : (qualifier : Option ℕ) → ℕ → ℕ
get_qualified_integer none w = sign_extend w
get_qualified_integer (some q) w = if q == 104 then sign_extend w else w % 2 ^ 64

-- behind the `%`
pub get_flags : List ℕ → Flags → Flags × List ℕ
get_flags [] f = (f, [])
get_flags (c ∷ fmt) f =
    let left = get_flags fmt (record f { left = true }) in
    let plus = get_flags fmt (record f { plus = true }) in
    let space = get_flags fmt (record f { space = true }) in
    let special = get_flags fmt (record f { special = true }) in
    let zeropad = get_flags fmt (record f { zeropad = true }) in
    if c == 45
    then left
    else if c == 43
    then plus
    else if c == 32
    then space
    else if c == 35
    then special
    else if c == 48
    then zeropad
    else (f, c ∷ fmt)

-- the field width, with the flags it may change
pub get_width : List ℕ → List Arg → Flags → Outcome (Option ℕ × Flags × List ℕ × List Arg)
unfolding skip_atoi
get_width [] args f = done (none, f, [], args)
get_width (c ∷ fmt) args f =
    if is_digit c
    then (skip_atoi 0 (c ∷ fmt) >>= λ r. done (some r.0, f, r.1, args))
    else if c == 42
    then (do
      (w, args1) ← va_word args
      done (
        some (if is_negative32 w then 2 ^ 32 - w % 2 ^ 32 else w % 2 ^ 32),
        (if is_negative32 w then record f { left = true } else f),
        fmt,
        args1,
      ))
    else done (none, f, c ∷ fmt, args)

-- behind the point
pub get_digits : List ℕ → List Arg → Outcome (ℕ × List ℕ × List Arg)
unfolding skip_atoi
get_digits [] args = done (0, [], args)
get_digits (c ∷ fmt) args =
    if is_digit c
    then (skip_atoi 0 (c ∷ fmt) >>= λ r. done (r.0, r.1, args))
    else if c == 42
    then (do
      (w, args1) ← va_word args
      done ((if is_negative32 w then 0 else w % 2 ^ 32), fmt, args1))
    else done (0, c ∷ fmt, args)

pub get_precision : List ℕ → List Arg → Outcome (Option ℕ × List ℕ × List Arg)
unfolding get_digits
get_precision [] args = done (none, [], args)
get_precision (c ∷ fmt) args =
    if c == 46
    then (get_digits fmt args >>= λ r. done (some r.0, r.1, r.2))
    else done (none, c ∷ fmt, args)

pub get_qualifier : List ℕ → Option ℕ × List ℕ
get_qualifier [] = (none, [])
get_qualifier (c ∷ fmt) =
    if (c == 104) || ((c == 108) || (c == 76)) then (some c, fmt) else (none, c ∷ fmt)

abbrev pub or_zero : Option ℕ → ℕ
or_zero none = 0
or_zero (some n) = n

abbrev pub take : ℕ → List ℕ → List ℕ
take zero s = []
take (suc n) [] = []
take (suc n) (c ∷ s) = c ∷ take n s

abbrev pub pad_to : Flags → (width : Option ℕ) → List ℕ → List ℕ
pad_to f width s =
    let pad = replicate (or_zero width - length s) 32 in if f.left then s ++ pad else pad ++ s

-- %s; the text of NULL is `<NULL>`
pub put_string : Option (List ℕ) → Flags → (width precision : Option ℕ) → List ℕ
put_string none f width none = pad_to f width (60 ∷ 78 ∷ 85 ∷ 76 ∷ 76 ∷ 62 ∷ [])
put_string none f width (some n) = pad_to f width (take n (60 ∷ 78 ∷ 85 ∷ 76 ∷ 76 ∷ 62 ∷ []))
put_string (some s) f width none = pad_to f width s
put_string (some s) f width (some n) = pad_to f width (take n s)

-- %c; the loops run while the decremented width is positive
pub put_char : Flags → (width : Option ℕ) → (w : ℕ) → List ℕ
put_char f width w =
    let pad = replicate (or_zero width - 1) 32 in
    if f.left then (w % 2 ^ 8) ∷ pad else pad ++ ((w % 2 ^ 8) ∷ [])

pub put_pointer : Flags → (width precision : Option ℕ) → (w : ℕ) → Outcome (List ℕ)
unfolding number
put_pointer f none precision w =
    number (w % 2 ^ 64) 16 16 (or_zero precision) (record f { zeropad = true })
put_pointer f (some n) precision w = number (w % 2 ^ 64) 16 n (or_zero precision) f

-- what one conversion yields: the text, the arguments left, and whether the length so far is stored
pub record Converted : Type 0 where
  pub out : List ℕ
  pub args : List Arg
  pub stores : Bool

abbrev pub plain : List ℕ → List Arg → Converted
plain s args = record { out = s; args = args; stores = false }

pub put_integer :
    (base : ℕ) → (qualifier width precision : Option ℕ) → Flags → List Arg → Outcome Converted
unfolding number
put_integer base qualifier width precision f args = do
  (w, args1) ← va_word args
  s ← number (get_qualified_integer qualifier w) base (or_zero width) (or_zero precision) f
  done (plain s args1)

-- %s and %n, whose arguments are pointers
pub put_pointed :
    (is_string : Bool) → (width precision : Option ℕ) → Flags → List Arg → Outcome Converted
unfolding put_string
put_pointed is_string width precision f [] = undefined
put_pointed is_string width precision f (word w ∷ args) = undefined
put_pointed is_string width precision f (text s ∷ args) =
    if is_string then done (plain (put_string s f width precision) args) else undefined
put_pointed is_string width precision f (int_ptr ∷ args) =
    if is_string then undefined else done (record { out = []; args = args; stores = true })

-- the switch on the conversion character
pub convert :
    (c : ℕ) → (qualifier width precision : Option ℕ) → Flags → List Arg → Outcome Converted
unfolding put_char put_pointer put_integer put_pointed
convert c qualifier width precision f args =
    if c == 99
    then (va_word args >>= λ r. done (plain (put_char f width r.0) r.1))
    else if c == 115
    then put_pointed true width precision f args
    else if c == 111
    then put_integer 8 qualifier width precision f args
    else if c == 112
    then (va_word args >>= λ r. (put_pointer f width precision r.0 >>= λ s. done (plain s r.1)))
    else if c == 120
    then put_integer 16 qualifier width precision (record f { small = true }) args
    else if c == 88
    then put_integer 16 qualifier width precision f args
    else if (c == 100) || (c == 105)
    then put_integer 10 qualifier width precision (record f { sign = true }) args
    else if c == 117
    then put_integer 10 qualifier width precision f args
    else if c == 110
    then put_pointed false width precision f args
    else if c == 37
    then done (plain (37 ∷ []) args)
    else done (plain (37 ∷ c ∷ []) args)

-- one directive, behind its `%`; at the end of the format the `%` stands for itself
pub directive : List ℕ → List Arg → Outcome (Converted × List ℕ)
unfolding get_flags get_width get_precision get_qualifier convert
directive fmt args = do
  let (f, fmt1) = get_flags fmt no_flags
  (width, g, fmt2, args1) ← get_width fmt1 args f
  (precision, fmt3, args2) ← get_precision fmt2 args1
  let (qualifier, fmt4) = get_qualifier fmt3
  (elim fmt4 [
    | [] ↦ done (plain (37 ∷ []) args2, [])
    | c ∷ fmt5 ↦ convert c qualifier width precision g args2 >>= λ v. done (v, fmt5)
  ])

-- Each round takes a character of the format at least, so its length and one is enough fuel. `n` is
-- the number of characters written so far; the result is the text, and the values that %n stores.
pub vsprintf_from : ℕ → (fmt : List ℕ) → List Arg → (n : ℕ) → Outcome (List ℕ × List ℕ)
unfolding directive
vsprintf_from zero fmt args n = hang
vsprintf_from (suc fuel) [] args n = done ([], [])
vsprintf_from (suc fuel) (c ∷ fmt) args n =
    let rest = vsprintf_from fuel fmt args (n + 1) in
    let converted = directive fmt args >>= λ d.
    (vsprintf_from fuel d.1 d.0.args (n + length d.0.out) >>= λ r.
    done (d.0.out ++ r.0, (if d.0.stores then n ∷ r.1 else r.1))) in
    if c == 37 then converted else (rest >>= λ r. done (c ∷ r.0, r.1))

pub vsprintf : (fmt : List ℕ) → List Arg → Outcome (List ℕ × List ℕ)
unfolding vsprintf_from
vsprintf fmt args = vsprintf_from (suc (length fmt)) fmt args 0

-- the text that goes to the console, from a buffer of 1024 bytes with its final 0
pub printf : (fmt : List ℕ) → List Arg → Outcome (List ℕ)
unfolding vsprintf
printf fmt args = do
  (s, stored) ← vsprintf fmt args
  if ltb (length s) 1024 then done s else undefined
