-- ===== src/Common/Words.antt =====
-- u16 and u32 as big-endian bytes: `to_be_bytes` and `from_be_bytes`.
use sockd.Common.{ℕ, ◌+◌, ◌*◌, ◌/◌, ◌%◌, ◌<◌, List, [], ◌∷◌}

abbrev pub u32_max : ℕ
u32_max = 4294967295

abbrev pub u64_max : ℕ
u64_max = 18446744073709551615

abbrev pub IsByte : ℕ → Type 0
IsByte b = b < 256

abbrev pub to_be_bytes_16 : ℕ → List ℕ
to_be_bytes_16 x = (x / 256 % 256) ∷ (x % 256) ∷ []

abbrev pub to_be_bytes_32 : ℕ → List ℕ
to_be_bytes_32 x = (x / 16777216 % 256) ∷ (x / 65536 % 256) ∷ (x / 256 % 256) ∷ (x % 256) ∷ []

from_be_loop : ℕ → List ℕ → ℕ
from_be_loop acc [] = acc
from_be_loop acc (b ∷ bs) = from_be_loop (acc * 256 + b) bs

unfoldable pub from_be_bytes : List ℕ → ℕ
unfolding from_be_loop
from_be_bytes = from_be_loop 0
