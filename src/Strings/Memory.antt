-- ===== src/Strings/Memory.antt =====
-- pintos/src/lib/string.c: blocks of memory, and strings in memory. Memory is bytes by address, and no
-- block or string reaches past the end of it, so a pointer does not wrap around. `none` is a failed
-- ASSERT, or a string with no NUL among the bytes that are looked at.
pub mod Moving
pub mod Copying
use ospersonal.Common.{
  Bool, Option, assert, if◌then◌else◌, length, ltb, none, not, some, suc, zero, ℕ, ◌%◌, ◌&&◌, ◌+◌,
  ◌-◌, ◌==◌, ◌>>=◌, ◌>>◌, ◌||◌,
}
use ospersonal.Strings.{Sign, negative, equal, positive}

abbrev pub Bytes : Type 0
Bytes = ℕ → ℕ

abbrev pub put : Bytes → ℕ → ℕ → Bytes
put m a c x = if x == a then c else m x

-- A block at NULL is empty.
abbrev pub is_block : ℕ → ℕ → Bool
is_block a size = not (a == 0) || size == 0

-- `*dst++ = *src++`, with where `dst` ends.
unfoldable pub copy_up : ℕ → Bytes → ℕ → ℕ → ℕ × Bytes
copy_up zero m dst src = (dst, m)
copy_up (suc size) m dst src = copy_up size (put m dst (m src)) (dst + 1) (src + 1)

-- `*--dst = *--src`.
unfoldable pub copy_down : ℕ → Bytes → ℕ → ℕ → ℕ × Bytes
copy_down zero m dst src = (dst, m)
copy_down (suc size) m dst src = copy_down size (put m (dst - 1) (m (src - 1))) (dst - 1) (src - 1)

unfoldable pub memcpy : Bytes → ℕ → ℕ → ℕ → Option (ℕ × Bytes)
memcpy m dst src size =
    assert (is_block dst size)
    >> (assert (is_block src size) >> some (dst, (copy_up size m dst src).1))

unfoldable pub memmove : Bytes → ℕ → ℕ → ℕ → Option (ℕ × Bytes)
memmove m dst src size =
    assert (is_block dst size)
    >> (assert (is_block src size)
        >> some (
            if ltb dst src
            then copy_up size m dst src
            else copy_down size m (dst + size) (src + size)))

unfoldable pub set_up : ℕ → Bytes → ℕ → ℕ → Bytes
set_up zero m dst value = m
set_up (suc size) m dst value = set_up size (put m dst (value % 256)) (dst + 1) value

unfoldable pub memset : Bytes → ℕ → ℕ → ℕ → Option (ℕ × Bytes)
memset m dst value size = assert (is_block dst size) >> some (dst, set_up size m dst value)

unfoldable pub compare_up : ℕ → Bytes → ℕ → ℕ → Sign
compare_up zero m a b = equal
compare_up (suc size) m a b =
    let rest = compare_up size m (a + 1) (b + 1) in
    if m a == m b then rest else (if ltb (m b) (m a) then positive else negative)

unfoldable pub memcmp : Bytes → ℕ → ℕ → ℕ → Option Sign
memcmp m a b size =
    assert (is_block a size) >> (assert (is_block b size) >> some (compare_up size m a b))

unfoldable pub search_up : ℕ → Bytes → ℕ → ℕ → ℕ
search_up zero m block ch = 0
search_up (suc size) m block ch =
    let rest = search_up size m (block + 1) ch in if m block == ch then block else rest

unfoldable pub memchr : Bytes → ℕ → ℕ → ℕ → Option ℕ
memchr m block ch size = assert (is_block block size) >> some (search_up size m block (ch % 256))

-- The loop of `strlen`, over at most so many bytes.
unfoldable pub length_up : ℕ → Bytes → ℕ → Option ℕ
length_up zero m p = none
length_up (suc n) m p =
    let rest = length_up n m (p + 1) in
    if m p == 0 then some 0 else (rest >>= λ length. some (suc length))

unfoldable pub strlen_at : ℕ → Bytes → ℕ → Option ℕ
strlen_at n m string = assert (not (string == 0)) >> length_up n m string

unfoldable pub strlcpy : ℕ → Bytes → ℕ → ℕ → ℕ → Option (ℕ × Bytes)
strlcpy n m dst src size =
    assert (not (dst == 0))
    >> (assert (not (src == 0))
        >> (strlen_at n m src >>= λ src_len.
            if size == 0
            then some (src_len, m)
            else (let dst_len = if ltb src_len (size - 1) then src_len else size - 1 in
                memcpy m dst src dst_len >>= λ r. some (src_len, put r.1 (dst + dst_len) 0))))

unfoldable pub strlcat : ℕ → Bytes → ℕ → ℕ → ℕ → Option (ℕ × Bytes)
strlcat n m dst src size =
    assert (not (dst == 0))
    >> (assert (not (src == 0))
        >> (strlen_at n m src >>= λ src_len. strlen_at n m dst >>= λ dst_len.
            if ltb 0 size && ltb dst_len size
            then (let rest = size - dst_len - 1 in
                let copy_cnt = if ltb src_len rest then src_len else rest in
                memcpy m (dst + dst_len) src copy_cnt >>= λ r.
                some (src_len + dst_len, put r.1 (dst + dst_len + copy_cnt) 0))
            else some (src_len + dst_len, m)))
