-- ===== src/Tests/Descriptors.antt =====
-- The first two descriptors have pages.
use buaa_os_mos_with_fat.Base.{◌-◌, ◌/◌, ◌^◌, ◌≡◌, refl, ◌==◌, ◌||◌, ok}
use buaa_os_mos_with_fat.User.Descriptors.{Tables, maxfd, index2fd, fd_scan, fd_alloc}
use buaa_os_mos_with_fat.User.Descriptors.Found.{Free, fd_alloc-Free}

abbrev two_used : Tables
two_used = record {
  dir_valid = λ d. d == index2fd 0 / 2 ^ 22;
  page_valid = λ p. p == index2fd 0 / 4096 || p == index2fd 1 / 4096;
}

third : fd_alloc two_used ≡ ok (index2fd 2) two_used
unfolding fd_alloc fd_scan
third = refl

fd_alloc-Free_example : Free (maxfd - 1) 0 two_used (fd_alloc two_used)
fd_alloc-Free_example = fd_alloc-Free two_used
