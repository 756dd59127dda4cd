-- ===== src/PageDb/Contents.antt =====
-- src/vm_page.c: what pages hold. Memory is the word of 64 bits at each address that is a multiple of 8.
use smor.Prelude.{
  ℕ, zero, suc, ◌+◌, ◌*◌, ◌/◌, ◌^◌, ◌≤◌, ◌<◌, ◌≡◌, refl, ◌∙◌, ap, ◌⊎◌, inl, inr, arith, update,
  ==_refl, ne→==, ◌==◌, false,
}

-- the loops on words: the number of words left
pub zero_words : ℕ → (p : ℕ) → (ℕ → ℕ) → ℕ → ℕ
zero_words zero p mem = mem
zero_words (suc n) p mem = zero_words n (p + 8) (update mem p 0)

pub copy_words : ℕ → (p_dst p_src : ℕ) → (ℕ → ℕ) → ℕ → ℕ
copy_words zero p_dst p_src mem = mem
copy_words (suc n) p_dst p_src mem =
    copy_words n (p_dst + 8) (p_src + 8) (update mem p_dst (mem p_src))

pub zero_page_4k : (addr : ℕ) → (ℕ → ℕ) → ℕ → ℕ
zero_page_4k addr mem = zero_words (2 ^ 12 / 8) addr mem

pub zero_page_2m : (addr : ℕ) → (ℕ → ℕ) → ℕ → ℕ
zero_page_2m addr mem = zero_words (2 ^ 21 / 8) addr mem

pub copy_page_4k : (dst src : ℕ) → (ℕ → ℕ) → ℕ → ℕ
copy_page_4k dst src mem = copy_words (2 ^ 12 / 8) dst src mem

pub copy_page_2m : (dst src : ℕ) → (ℕ → ℕ) → ℕ → ℕ
copy_page_2m dst src mem = copy_words (2 ^ 21 / 8) dst src mem

-- the words outside `n` words from `p` on
abbrev pub Outside : (n p a : ℕ) → Type 0
Outside n p a = (a < p) ⊎ (p + 8 * n ≤ a)

Outside-tail : (n p a : ℕ) → Outside (suc n) p a → Outside n (p + 8) a
Outside-tail n p a out = elim out [
  | inl below ↦ inl (omega (arith, below))
  | inr above ↦ inr (omega (arith, above))
]

zero_words-others : (n p : ℕ) (mem : ℕ → ℕ) (a : ℕ) → Outside n p a → zero_words n p mem a ≡ mem a
unfolding zero_words
zero_words-others zero p mem a out = refl
zero_words-others (suc n) p mem a out =
    zero_words-others n (p + 8) (update mem p 0) a (Outside-tail n p a out) ∙ ground (arith, out)

zero_words-zero : (n p : ℕ) (mem : ℕ → ℕ) (i : ℕ) → i < n → zero_words n p mem (p + 8 * i) ≡ 0
unfolding zero_words
zero_words-zero zero p mem i lt = absurd (omega (arith, lt))
zero_words-zero (suc n) p mem zero lt =
    ap (zero_words n (p + 8) (update mem p 0)) (omega arith)
    ∙ zero_words-others n (p + 8) (update mem p 0) p (inl (omega arith))
    ∙ rw (==_refl p) refl
zero_words-zero (suc n) p mem (suc i) lt =
    ap (zero_words n (p + 8) (update mem p 0)) (omega arith)
    ∙ zero_words-zero n (p + 8) (update mem p 0) i (omega (arith, lt))

copy_words-others :
    (n d s : ℕ) (mem : ℕ → ℕ) (a : ℕ) → Outside n d a → copy_words n d s mem a ≡ mem a
unfolding copy_words
copy_words-others zero d s mem a out = refl
copy_words-others (suc n) d s mem a out =
    copy_words-others n (d + 8) (s + 8) (update mem d (mem s)) a (Outside-tail n d a out)
    ∙ ground (arith, out)

-- the words `i` of the two pages, which do not overlap
copy_words-same :
    (n d s : ℕ) (mem : ℕ → ℕ) (i : ℕ)
    → i < n
    → (d + 8 * n ≤ s) ⊎ (s + 8 * n ≤ d)
    → copy_words n d s mem (d + 8 * i) ≡ mem (s + 8 * i)
unfolding copy_words
copy_words-same zero d s mem i lt apart = absurd (omega (arith, lt))
copy_words-same (suc n) d s mem zero lt apart =
    ap (copy_words n (d + 8) (s + 8) (update mem d (mem s))) (omega arith)
    ∙ copy_words-others n (d + 8) (s + 8) (update mem d (mem s)) d (inl (omega arith))
    ∙ rw (==_refl d) (ap mem (omega arith))
copy_words-same (suc n) d s mem (suc i) lt apart =
    let mem1 = update mem d (mem s) in
    let rest : (d + 8 + 8 * n ≤ s + 8) ⊎ (s + 8 + 8 * n ≤ d + 8) = elim apart [
      | inl l ↦ inl (omega (arith, l))
      | inr r ↦ inr (omega (arith, r))
    ] in
    let kept : ((s + 8 + 8 * i) == d) ≡ false =
      ne→== (s + 8 + 8 * i) d
        (λ e. elim apart [ inl l ↦ omega (arith, l, e) | inr r ↦ omega (arith, r, e, lt) ]) in
    ap (copy_words n (d + 8) (s + 8) mem1) (omega arith)
    ∙ copy_words-same n (d + 8) (s + 8) mem1 i (omega (arith, lt)) rest
    ∙ rw kept (ap mem (omega arith))

-- `mem'` is `mem` with the words of the page at `dst` those of the page at `src`
pub record IsCopy (n dst src : ℕ) (mem mem' : ℕ → ℕ) : Type 0 where
  pub same : (i : ℕ) → i < n → mem' (dst + 8 * i) ≡ mem (src + 8 * i)
  pub others : (a : ℕ) → Outside n dst a → mem' a ≡ mem a

-- Of two big pages that do not overlap, `copy_page_2m` copies one to the other and leaves the rest of
-- memory as it is.
pub copy_page_2m-IsCopy :
    (dst src : ℕ) (mem : ℕ → ℕ)
    → (dst + 2 ^ 21 ≤ src) ⊎ (src + 2 ^ 21 ≤ dst)
    → IsCopy (2 ^ 18) dst src mem (copy_page_2m dst src mem)
unfolding copy_page_2m
copy_page_2m-IsCopy dst src mem apart = record {
  same = λ i lt. copy_words-same (2 ^ 18) dst src mem i lt apart;
  others = λ a out. copy_words-others (2 ^ 18) dst src mem a out;
}

-- `zero_page_2m` clears the words of the page and no other.
pub zero_page_2m-IsZero :
    (addr : ℕ) (mem : ℕ → ℕ)
    → ((i : ℕ) → i < 2 ^ 18 → zero_page_2m addr mem (addr + 8 * i) ≡ 0)
      × ((a : ℕ) → Outside (2 ^ 18) addr a → zero_page_2m addr mem a ≡ mem a)
unfolding zero_page_2m
zero_page_2m-IsZero addr mem = (
  λ i lt. zero_words-zero (2 ^ 18) addr mem i lt,
  λ a out. zero_words-others (2 ^ 18) addr mem a out,
)
