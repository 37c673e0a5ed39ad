-- ===== src/Clib/Memory.antt =====
-- lib/string.c: `memcpy` and `memset` on memory, a function from addresses to bytes. Addresses do
-- not wrap. A word of memory is read and written at a multiple of 4 only: elsewhere the access is
-- an address error, and the copy is `none`.
pub mod Copied
use buaa_os_mos_with_fat.Base.{
  ℕ, zero, suc, ◌+◌, ◌-◌, ◌%◌, Bool, ◌&&◌, ◌==◌, ◌!=◌, leb, ltb, if◌then◌else◌, Option, some, none,
}
use buaa_os_mos_with_fat.Base.Bitmap.{Words, update}

-- `dst`, `src` and the memory
pub record Copying : Type 0 where
  pub dst : ℕ
  pub src : ℕ
  pub mem : Words

-- `*(char *)dst++ = *(char *)src++;`
unfoldable pub copy_byte : Copying → Copying
unfolding update
copy_byte s = record { dst = s.dst + 1; src = s.src + 1; mem = update s.mem s.dst (s.mem s.src) }

-- `*(uint32_t *)dst = *(uint32_t *)src; dst += 4; src += 4;`
unfoldable pub copy_word : Copying → Option Copying
copy_word s =
    if s.dst % 4 == 0 && s.src % 4 == 0
    then some (record {
      dst = s.dst + 4;
      src = s.src + 4;
      mem = λ a. if leb s.dst a && ltb a (s.dst + 4) then s.mem (s.src + (a - s.dst)) else s.mem a;
    })
    else none

-- The loops, with the rounds left: to the end, to an aligned `dst`, and by words.
unfoldable pub copy_bytes : ℕ → ℕ → Copying → Copying
unfolding copy_byte
copy_bytes zero max s = s
copy_bytes (suc rounds) max s =
    let rest = copy_bytes rounds max (copy_byte s) in if ltb s.dst max then rest else s

unfoldable pub copy_to_aligned : ℕ → ℕ → Copying → Copying
unfolding copy_byte
copy_to_aligned zero max s = s
copy_to_aligned (suc rounds) max s =
    let rest = copy_to_aligned rounds max (copy_byte s) in
    if s.dst % 4 != 0 && ltb s.dst max then rest else s

unfoldable pub copy_words : ℕ → ℕ → Copying → Option Copying
unfolding copy_word
copy_words zero max s = some s
copy_words (suc rounds) max s =
    let rest : Option Copying = elim (copy_word s) [
      | some t ↦ copy_words rounds max t
      | none ↦ none
    ] in
    if leb (s.dst + 4) max then rest else some s

-- `memcpy`: what the memory holds afterwards; each loop runs at most n times.
unfoldable pub memcpy : (dst src n : ℕ) → Words → Option Words
unfolding copy_bytes copy_to_aligned copy_words
memcpy dst src n m =
    let max = dst + n in
    let start : Copying = record { dst = dst; src = src; mem = m } in
    if src % 4 != dst % 4
    then some (copy_bytes n max start).mem
    else elim (copy_words n max (copy_to_aligned n max start)) [
      | some s ↦ some (copy_bytes n max s).mem
      | none ↦ none
    ]
