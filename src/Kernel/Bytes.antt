-- ===== src/Kernel/Bytes.antt =====
-- Kernel/lib.c: `memset` and `memcpy`, on a memory of bytes by address.
pub mod Copy
use tp_so.Base.{ℕ, zero, suc, ◌+◌, ◌*◌, ◌/◌, ◌%◌, ◌&&◌, ◌==◌, if◌then◌else◌}
use tp_so.Kernel.{update}

abbrev pub Bytes : Type 0
Bytes = ℕ → ℕ

-- `dst[length] = chr` of `memset`, from the last byte to the first.
pub set_bytes : Bytes → ℕ → ℕ → ℕ → Bytes
set_bytes m dst chr zero = m
set_bytes m dst chr (suc length) = set_bytes (update m (dst + length) chr) dst chr length

-- `memset`
pub memset : Bytes → ℕ → ℕ → ℕ → Bytes
memset m dst c length = set_bytes m dst (c % 256) length

-- `d[i] = s[i]` for a word, of which all bytes are read before one is stored.
pub copy_word : Bytes → ℕ → ℕ → Bytes
copy_word m d s =
    update (update (update (update m d (m s)) (d + 1) (m (s + 1))) (d + 2) (m (s + 2))) (d + 3)
      (m (s + 3))

-- The loops of `memcpy`, with the number of rounds that are left.
pub copy_words : Bytes → ℕ → ℕ → ℕ → Bytes
copy_words m d s zero = m
copy_words m d s (suc n) = copy_words (copy_word m d s) (d + 4) (s + 4) n

pub copy_bytes : Bytes → ℕ → ℕ → ℕ → Bytes
copy_bytes m d s zero = m
copy_bytes m d s (suc n) = copy_bytes (update m d (m s)) (d + 1) (s + 1) n

-- `memcpy`
pub memcpy : Bytes → ℕ → ℕ → ℕ → Bytes
memcpy m destination source length =
    if destination % 4 == 0 && source % 4 == 0 && length % 4 == 0
    then copy_words m destination source (length / 4)
    else copy_bytes m destination source length
