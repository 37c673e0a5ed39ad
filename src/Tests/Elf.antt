-- ===== src/Tests/Elf.antt =====
-- A segment that begins inside a page, and one whose content ends in that page.
use buaa_os_mos_with_fat.Base.{ℕ, ◌+◌, ◌≡◌, refl, arith, inl, inr, false, ok, Run}
use buaa_os_mos_with_fat.Clib.Elf.{Phdr, elf_load_seg}
use buaa_os_mos_with_fat.Clib.Elf.Place.{Image, place}
use buaa_os_mos_with_fat.Clib.Elf.Segment.{Loaded, elf_load_seg-Loaded}

abbrev empty : Image
empty = record { present = λ p. false; perm = λ p. 0; byte = λ a. 9 }

-- 5000 bytes of content, from 300 bytes into page 16 on, and 20000 in all
abbrev data_segment : Phdr
data_segment = record { p_vaddr = 65836; p_filesz = 5000; p_memsz = 20000; p_flags = 6 }

elf_load_seg-Loaded_example :
    (new : Image) × (elf_load_seg (place (λ i. i + 1)) data_segment empty ≡ ok tt new)
    × Loaded (λ i. i + 1) data_segment empty new
elf_load_seg-Loaded_example =
    elf_load_seg-Loaded (λ i. i + 1) data_segment empty (omega arith) (omega arith)
      (inr (inl (omega arith)))

-- 10 bytes of content in the middle of a page, and a byte more
abbrev short_segment : Phdr
short_segment = record { p_vaddr = 65836; p_filesz = 10; p_memsz = 11; p_flags = 6 }

abbrev byte_at : ℕ → Run Image (Unit {0}) → ℕ
byte_at a (ok v new) = new.byte a
byte_at a other = 0

lost : byte_at 65836 (elf_load_seg (place (λ i. i + 1)) short_segment empty) ≡ 0
unfolding elf_load_seg place
lost = refl
