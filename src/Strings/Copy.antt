-- ===== src/Strings/Copy.antt =====
-- src/string.c, strlen, strcpy and c_strncpy.
use smor.Prelude.{
  ℕ, zero, suc, ◌+◌, ◌-◌, ◌&&◌, leb, ltb, ◌≤◌, ◌<◌, ◌≡◌, ◌≢◌, ◌∙◌, ◌⊎◌, ◌==◌, if◌then◌else◌, update,
  List, [], ◌∷◌, length, done, arith,
}
use smor.Strings.{count_chars, strlen, strcpy, copy_chars, c_strncpy}

-- the bytes from `p` on are those of `cs`, none of them 0, and then 0
abbrev pub IsString : (ℕ → ℕ) → ℕ → List ℕ → Type 0
IsString mem p [] = mem p ≡ 0
IsString mem p (c ∷ cs) = (mem p ≡ c) × (c ≢ 0) × IsString mem (p + 1) cs

-- a string depends on its own bytes only
pub IsString-frame :
    (mem mem' : ℕ → ℕ) (p : ℕ) (cs : List ℕ)
    → ((a : ℕ) → p ≤ a → a < p + suc (length cs) → mem' a ≡ mem a)
    → IsString mem p cs
    → IsString mem' p cs
IsString-frame mem mem' p [] same s = same p (omega arith) (omega arith) ∙ s
IsString-frame mem mem' p (c ∷ cs) same s = (
  same p (omega arith) (omega arith) ∙ s.0,
  s.1,
  IsString-frame mem mem' (p + 1) cs (λ a lo hi. same a (omega arith) (omega arith)) (s.2),
)

pub count_chars-length :
    (fuel : ℕ) (mem : ℕ → ℕ) (p len : ℕ) (cs : List ℕ)
    → IsString mem p cs
    → length cs < fuel
    → count_chars fuel mem p len ≡ done (len + length cs)
unfolding count_chars
count_chars-length zero mem p len cs s h = absurd (omega arith)
count_chars-length (suc fuel) mem p len [] s h = ground arith
count_chars-length (suc fuel) mem p len (c ∷ cs) s h =
    ground (arith, count_chars-length fuel mem (p + 1) (len + 1) cs (s.2))

-- `strlen` returns the length of the string, with fuel for one round more.
pub strlen-length :
    (fuel : ℕ) (mem : ℕ → ℕ) (p : ℕ) (cs : List ℕ)
    → p ≢ 0
    → IsString mem p cs
    → length cs < fuel
    → strlen fuel mem p ≡ done (length cs)
unfolding strlen
strlen-length fuel mem p cs ne s h = ground (arith, count_chars-length fuel mem p 0 cs s)

-- what a copy of `cs` to `dest` promises
abbrev pub Copied : (mem mem' : ℕ → ℕ) → (dest : ℕ) → List ℕ → Type 0
Copied mem mem' dest cs =
    IsString mem' dest cs × ((a : ℕ) → (a < dest) ⊎ (dest + length cs < a) → mem' a ≡ mem a)

-- `strcpy` copies the string, the final 0 included, and writes nothing else, if the source and the
-- destination do not overlap.
pub strcpy-Copied :
    (fuel : ℕ) (mem : ℕ → ℕ) (dest src : ℕ) (cs : List ℕ)
    → IsString mem src cs
    → (dest + length cs < src) ⊎ (src + length cs < dest)
    → length cs < fuel
    → (mem' : ℕ → ℕ) × (strcpy fuel dest src mem ≡ done mem') × Copied mem mem' dest cs
unfolding strcpy
strcpy-Copied zero mem dest src cs s apart h = absurd (omega arith)
strcpy-Copied (suc fuel) mem dest src [] s apart h =
    (update mem dest (mem src), ground arith, (ground arith, λ a out. ground arith))
strcpy-Copied (suc fuel) mem dest src (c ∷ cs) s apart h =
    let copied = update mem dest (mem src) in
    let kept = IsString-frame mem copied (src + 1) cs (λ a lo hi. ground arith) (s.2) in
    let (mem', run, (there, others)) =
      strcpy-Copied fuel copied (dest + 1) (src + 1) cs kept (ground arith) (omega arith) in
    (
      mem',
      rw run (ground arith),
      ((ground (arith, others dest), s.1, there), λ a out. ground (arith, others a)),
    )

copy_chars-bytes :
    (n : ℕ) (dst src i : ℕ) (mem : ℕ → ℕ) (a : ℕ)
    → (dst + n ≤ src) ⊎ (src + n ≤ dst)
    → copy_chars n dst src i mem a
      ≡ (if leb (dst + i) a && ltb a (dst + i + n) then mem (src + (a - dst)) else mem a)
unfolding copy_chars
copy_chars-bytes zero dst src i mem a apart = ground arith
copy_chars-bytes (suc n) dst src i mem a apart =
    ground (arith, copy_chars-bytes n dst src (i + 1) (update mem (dst + i) (mem (src + i))) a)

-- `c_strncpy` copies `len` bytes, whatever they are, and ends them with a 0; it writes nothing else.
pub c_strncpy-bytes :
    (dst src len : ℕ) (mem : ℕ → ℕ) (a : ℕ)
    → (dst + len ≤ src) ⊎ (src + len ≤ dst)
    → c_strncpy dst src len mem a ≡ (
        if a == dst + len
        then 0
        else if leb dst a && ltb a (dst + len)
        then mem (src + (a - dst))
        else mem a)
unfolding c_strncpy
c_strncpy-bytes dst src len mem a apart = ground (arith, copy_chars-bytes len dst src 0 mem a apart)
