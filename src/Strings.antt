-- ===== src/Strings.antt =====
-- src/string.c. Memory is a function from the address to the byte; the loops run to the byte 0, and
-- fuel bounds their rounds.
pub mod Copy
pub mod Compare
mod Tests
use smor.Prelude.{ℕ, zero, suc, ◌+◌, ◌==◌, ltb, if◌then◌else◌, update, Outcome, done, hang}

-- the results -1, 0 and 1
pub data StrOrder : Type 0 where
  less : StrOrder
  same : StrOrder
  greater : StrOrder

-- the loop of `strlen`
pub count_chars : ℕ → (mem : ℕ → ℕ) → (p len : ℕ) → Outcome ℕ
count_chars zero mem p len = hang
count_chars (suc fuel) mem p len =
    let rest = count_chars fuel mem (p + 1) (len + 1) in if mem p == 0 then done len else rest

pub strlen : ℕ → (mem : ℕ → ℕ) → (p : ℕ) → Outcome ℕ
unfolding count_chars
strlen fuel mem p = if p == 0 then done 0 else count_chars fuel mem p 0

pub strcmp : ℕ → (mem : ℕ → ℕ) → (s1 s2 : ℕ) → Outcome StrOrder
strcmp zero mem s1 s2 = hang
strcmp (suc fuel) mem s1 s2 =
    let rest = strcmp fuel mem (s1 + 1) (s2 + 1) in
    if mem s1 == mem s2
    then (if mem s1 == 0 then done same else rest)
    else done (if ltb (mem s1) (mem s2) then less else greater)

pub strcpy : ℕ → (dest src : ℕ) → (mem : ℕ → ℕ) → Outcome (ℕ → ℕ)
strcpy zero dest src mem = hang
strcpy (suc fuel) dest src mem =
    let copied = update mem dest (mem src) in
    let rest = strcpy fuel (dest + 1) (src + 1) copied in if mem src == 0 then done copied else rest

-- the loop of `c_strncpy`: the number of rounds left, the index
pub copy_chars : ℕ → (dst src i : ℕ) → (mem : ℕ → ℕ) → ℕ → ℕ
copy_chars zero dst src i mem = mem
copy_chars (suc n) dst src i mem =
    copy_chars n dst src (i + 1) (update mem (dst + i) (mem (src + i)))

pub c_strncpy : (dst src len : ℕ) → (mem : ℕ → ℕ) → ℕ → ℕ
unfolding copy_chars
c_strncpy dst src len mem = update (copy_chars len dst src 0 mem) (dst + len) 0
