-- ===== src/Ata/Tests.antt =====
-- A disk that is busy for two reads of the status and then has its identification.
use smor.Prelude.{ℕ, ◌+◌, ◌^◌, ◌≡◌, refl, ltb, if◌then◌else◌, arith, get_or, [], ◌∷◌}
use smor.Ata.{Ports, ata_id_u64}
use smor.Ata.Identify.{IsWords, ata_id_u64-words}

-- A state counts the reads; a word is that count.
abbrev disk : Ports ℕ
disk = record {
  outb = λ port value s. s;
  inb = λ port s. (if ltb s 2 then 0x80 else 0x58, s + 1);
  inw = λ port s. (s, s + 1);
}

-- the sectors of a disk of 2 TB
abbrev sectors : ℕ → ℕ
sectors i = get_or (0x0 ∷ 0x0 ∷ 0x1 ∷ []) i 0

ata_id_u64-words_case : ata_id_u64 sectors 0 ≡ 2 ^ 32
unfolding IsWords
ata_id_u64-words_case = ata_id_u64-words sectors 0 (2 ^ 32) (omega arith) (refl, refl, refl, refl)
