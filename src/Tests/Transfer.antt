-- ===== src/Tests/Transfer.antt =====
-- 100 bytes of a file of 50, from byte 20 on.
use buaa_os_mos_with_fat.Base.{
  ℕ, ◌+◌, ◌-◌, ◌%◌, ◌≡◌, refl, true, min, List, [], ◌∷◌, inval, ok, fail, arith, inl,
}
use buaa_os_mos_with_fat.User.Descriptors.{index2fd, fd_lookup, fd2data}
use buaa_os_mos_with_fat.User.Transfer.{World, Dev, dev_lookup, file_read, readn}
use buaa_os_mos_with_fat.User.Transfer.Source.{Mapped, IsSource, file_read-IsSource}
use buaa_os_mos_with_fat.User.Transfer.Moved.{Moved}
use buaa_os_mos_with_fat.User.Transfer.Readn.{IsReady, readn-Moved}

abbrev content : ℕ → ℕ
content i = i % 256

abbrev file_device : Dev
file_device = record {
  dev_id = b'f';
  dev_read = file_read;
  dev_write = λ fd buf n offset. fail inval;
}

abbrev devices : List Dev
devices = file_device ∷ []

-- descriptor 1, and its file from 0x60400000 on
abbrev descriptor : ℕ
descriptor = index2fd 1

abbrev world : World
world = record {
  tables = record { dir_valid = λ d. true; page_valid = λ p. true };
  fd = λ a. record { fd_dev_id = b'f'; fd_offset = 20; fd_omode = 0; fd_fat = 1 };
  f_size = λ a. 0;
  fat_size = λ a. 50;
  mem = λ x. (x - 0x6040_0000) % 256;
}

file_read-IsSource_example :
    IsSource file_read (Mapped descriptor 50 content) descriptor 1000 2000 50 content
file_read-IsSource_example =
    file_read-IsSource descriptor 1000 2000 50 content (inl (unfold fd2data in omega arith))

world-Mapped : Mapped descriptor 50 content world
unfolding fd2data
world-Mapped = record { sized = refl; bytes = λ i h. same i }
  where
    same : (i : ℕ) → (0x6040_0000 + i - 0x6040_0000) % 256 ≡ i % 256
    same i = omega arith

world-IsReady : IsReady devices file_device (Mapped descriptor 50 content) 1 descriptor 20 world
unfolding fd_lookup dev_lookup
world-IsReady = record {
  looked = refl;
  known = λ v. refl;
  readable = refl;
  at_offset = refl;
  holds = world-Mapped;
}

readn-Moved_example :
    (v : World) × (readn devices 1 1000 100 world ≡ ok (min 100 (50 - 20)) v)
    × Moved content world 1000 20 (min 100 (50 - 20)) v
    × IsReady devices file_device
        (Mapped descriptor 50 content)
        1
        descriptor
        (20 + min 100 (50 - 20))
        v
readn-Moved_example =
    readn-Moved devices file_device (Mapped descriptor 50 content) 1 descriptor 1000 2000 50 content
      (file_read-IsSource descriptor 1000 2000 50 content (inl (unfold fd2data in omega arith)))
      world 1000 100 20 world-IsReady (omega arith) (omega arith) (omega arith)
