-- ===== src/Fat/Names/Checksum.antt =====
-- `ChkSum` tells apart names that differ in one byte.
use buaa_os_mos_with_fat.Base.{ℕ, ◌<◌, ◌≡◌, ◌≢◌, List, [], ◌∷◌, ◌++◌, arith}
use buaa_os_mos_with_fat.Fat.Names.{chksum_step, chksum_from, chk_sum}

chksum_step-sum : (a b c : ℕ) → a < 256 → b < 256 → chksum_step a c ≡ chksum_step b c → a ≡ b
chksum_step-sum a b c h k e = ground arith

chksum_step-byte : (a c d : ℕ) → c < 256 → d < 256 → chksum_step a c ≡ chksum_step a d → c ≡ d
chksum_step-byte a c d h k e = ground arith

chksum_step-lt : (a c : ℕ) → chksum_step a c < 256
chksum_step-lt a c = omega arith

chksum_from-injective :
    (name : List ℕ) (a b : ℕ) → a < 256 → b < 256 → chksum_from a name ≡ chksum_from b name → a ≡ b
unfolding chksum_from
chksum_from-injective [] a b h k e = e
chksum_from-injective (c ∷ name) a b h k e = chksum_step-sum a b c h k (
    chksum_from-injective name (chksum_step a c) (chksum_step b c) (chksum_step-lt a c)
      (chksum_step-lt b c) e)

chksum_from-byte :
    (before after : List ℕ) (acc c d : ℕ)
    → c < 256
    → d < 256
    → chksum_from acc (before ++ c ∷ after) ≡ chksum_from acc (before ++ d ∷ after)
    → c ≡ d
unfolding chksum_from
chksum_from-byte [] after acc c d h k e = chksum_step-byte acc c d h k (
    chksum_from-injective after (chksum_step acc c) (chksum_step acc d) (chksum_step-lt acc c)
      (chksum_step-lt acc d) e)
chksum_from-byte (x ∷ before) after acc c d h k e =
    chksum_from-byte before after (chksum_step acc x) c d h k e

-- Two names that differ in exactly one byte, whichever it is, have different checksums.
pub chk_sum-one_byte :
    (before after : List ℕ) (c d : ℕ)
    → c < 256
    → d < 256
    → c ≢ d
    → chk_sum (before ++ c ∷ after) ≢ chk_sum (before ++ d ∷ after)
unfolding chk_sum
chk_sum-one_byte before after c d h k ne e = ne (chksum_from-byte before after 0 c d h k e)
