-- ===== src/Base/Words.antt =====
-- Unsigned integers of 32 and 64 bits in big-endian order, as `writeUInt32BE`, `readUInt32BE`,
-- `writeBigUInt64BE` and `readBigUInt64BE` of a Buffer have them.
use electrosphere.Base.{ℕ, ◌+◌, ◌*◌, ◌/◌, ◌%◌, ◌<◌, ◌≡◌, List, [], ◌∷◌, ◌++◌, arith}

abbrev pub u32_be : ℕ → List ℕ
u32_be n = (n / 16_777_216 % 256) ∷ (n / 65_536 % 256) ∷ (n / 256 % 256) ∷ (n % 256) ∷ []

-- The first four bytes; the calls check that there are as many.
unfoldable pub read_u32_be : List ℕ → ℕ
read_u32_be (a ∷ b ∷ c ∷ d ∷ bytes) = a * 16_777_216 + b * 65_536 + c * 256 + d
read_u32_be _ = 0

pub read_u32_be-u32_be :
    (n : ℕ) (rest : List ℕ) → n < 4_294_967_296 → read_u32_be (u32_be n ++ rest) ≡ n
unfolding read_u32_be
read_u32_be-u32_be n rest small = omega arith

abbrev pub u64_be : ℕ → List ℕ
u64_be n = u32_be (n / 4_294_967_296) ++ u32_be (n % 4_294_967_296)

unfoldable pub read_u64_be : List ℕ → ℕ
read_u64_be (a ∷ b ∷ c ∷ d ∷ e ∷ f ∷ g ∷ h ∷ bytes) =
    (a * 16_777_216 + b * 65_536 + c * 256 + d) * 4_294_967_296
    + (e * 16_777_216 + f * 65_536 + g * 256 + h)
read_u64_be _ = 0

pub read_u64_be-u64_be :
    (n : ℕ) (rest : List ℕ) → n < 18_446_744_073_709_551_616 → read_u64_be (u64_be n ++ rest) ≡ n
unfolding read_u64_be
read_u64_be-u64_be n rest small = omega arith
