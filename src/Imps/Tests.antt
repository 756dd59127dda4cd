-- ===== src/Imps/Tests.antt =====
-- Memory without the tables, and the theorems at it.
use smor.Prelude.{ℕ, ◌≡◌, ◌≢◌, ◌==◌, if◌then◌else◌, refl, true, done, arith}
use smor.Imps.{imps_scan, imps_check_fps, imps_find}
use smor.Imps.Scan.{Nowhere, ebda, last_kilobyte, bios_rom, imps_find_complete}

-- `_MP_` at 32, with the checksum 0xa0
abbrev fps_bytes : ℕ → ℕ
fps_bytes a =
    if a == 32
    then 0x5f
    else if a == 33
    then 0x4d
    else if a == 34
    then 0x50
    else if a == 35
    then 0x5f
    else if a == 40
    then 1
    else if a == 41
    then 4
    else if a == 42
    then 0xa0
    else 0

third_paragraph : imps_scan 8 fps_bytes 0 64 ≡ done 32
unfolding imps_scan imps_check_fps
third_paragraph = refl

imps_find_complete_case :
    (found : ℕ) × (imps_find 4097 fps_bytes ≡ done found)
    × (found ≢ 0 → imps_check_fps fps_bytes found ≡ true)
    × (found ≡ 0
        → Nowhere fps_bytes (ebda fps_bytes) 64
          × Nowhere fps_bytes last_kilobyte 64
          × Nowhere fps_bytes bios_rom 4096)
imps_find_complete_case = imps_find_complete 4097 fps_bytes (omega arith)
