-- ===== src/Multiboot/Tags.antt =====
-- src/multiboot.c, multiboot_init: the walk over the tags.
use smor.Prelude.{
  ℕ, zero, suc, ◌+◌, ◌<◌, ◌≡◌, ◌≢◌, refl, ap, fun_ext, true, false, ◌==◌, ne→==, if◌then◌else◌,
  List, [], ◌∷◌, length, Outcome, done, hang, ◌>>=◌, arith,
}
use smor.Bytes.{read32}
use smor.Multiboot.{
  MbInfo, multiboot2_bootloader_magic, handle_tag, handle_tags, tag_stride, first_tag,
  multiboot_init,
}

-- from `p` on, tags lie at the addresses `tags`, each where the size of the one before says, and then
-- the end tag
abbrev pub AreTags : (mem : ℕ → ℕ) → ℕ → List ℕ → Type 0
AreTags mem p [] = read32 mem p ≡ 0
AreTags mem p (tag ∷ tags) =
    (tag ≡ p) × (read32 mem p ≢ 0) × AreTags mem (p + tag_stride (read32 mem (p + 4))) tags

-- the tags handled in their order
pub handle_all : ℕ → (mem : ℕ → ℕ) → List ℕ → MbInfo → Outcome MbInfo
handle_all fuel mem [] b = done b
handle_all fuel mem (tag ∷ tags) b = handle_tag fuel mem tag b >>= λ b1. handle_all fuel mem tags b1

handle_tags-all :
    (inner fuel : ℕ) (mem : ℕ → ℕ) (p : ℕ) (tags : List ℕ) (b : MbInfo)
    → AreTags mem p tags
    → length tags < fuel
    → handle_tags inner fuel mem p b ≡ handle_all inner mem tags b
unfolding handle_tags handle_all
handle_tags-all inner zero mem p tags b are lt = absurd (omega arith)
handle_tags-all inner (suc fuel) mem p [] b are lt = rw are refl
handle_tags-all inner (suc fuel) mem p (tag ∷ tags) b are lt =
    rw (are.0, ne→== (read32 mem p) 0 (are.1))
      (ap (λ k. handle_tag inner mem p b >>= k)
        (fun_ext (λ b1.
          handle_tags-all inner fuel mem (p + tag_stride (read32 mem (p + 4))) tags b1 (are.2)
            (omega arith))))

-- With the magic number of a boot loader, `multiboot_init` handles every tag once, in order, and ends
-- at the end tag; without it, it refuses and changes nothing.
pub multiboot_init-all :
    (inner fuel : ℕ) (mem : ℕ → ℕ) (tags : List ℕ) (b : MbInfo)
    → AreTags mem (first_tag b) tags
    → length tags < fuel
    → multiboot_init inner fuel mem b ≡ (
        if b.mb_magic == multiboot2_bootloader_magic
        then (handle_all inner mem tags b >>= λ b1. done (true, b1))
        else done (false, b))
unfolding multiboot_init
multiboot_init-all inner fuel mem tags b are lt =
    rw (handle_tags-all inner fuel mem (first_tag b) tags b are lt) refl

-- A tag of size 0 that is not the end tag is handled again and again: the walk does not end.
pub handle_tags-hangs :
    (inner fuel : ℕ) (mem : ℕ → ℕ) (tag : ℕ) (b : MbInfo)
    → read32 mem tag ≢ 0
    → read32 mem (tag + 4) ≡ 0
    → ((b0 : MbInfo) → (b1 : MbInfo) × (handle_tag inner mem tag b0 ≡ done b1))
    → handle_tags inner fuel mem tag b ≡ hang
unfolding handle_tags
handle_tags-hangs inner zero mem tag b ne z ok = refl
handle_tags-hangs inner (suc fuel) mem tag b ne z ok =
    let (b1, run) = ok b in
    let stay : tag + tag_stride (read32 mem (tag + 4)) ≡ tag = rw z (omega arith) in
    rw (ne→== (read32 mem tag) 0 ne, run, stay) (handle_tags-hangs inner fuel mem tag b1 ne z ok)
