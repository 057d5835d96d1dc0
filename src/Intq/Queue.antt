-- ===== src/Intq/Queue.antt =====
-- pintos/src/devices/intq.c: intq_putc and intq_getc on the queue that the ring stands for.
use ospersonal.Common.{
  ℕ, ◌<◌, ◌≡◌, refl, false, Option, none, some, [], ◌∷◌, ◌++◌, ◌==◌, get_or, length, arith,
  Bool-cases, inl, inr,
}
use ospersonal.Thread.{Kernel}
use ospersonal.Intq.{
  Intq, next_pos, intq_empty, intq_full, intq_getc, intq_putc, signal_not_full, signal_not_empty,
  wake,
}
use ospersonal.Intq.Ring.{
  IsRing, contents, added, added-IsRing, added-contents, removed, removed-IsRing, removed-contents,
  contents-empty, contents-full, contents-room,
}

-- What a `putc` comes to: it has to wait at 63 bytes, and else the byte is the queue's last.
pub data Put (q : Intq) (k : Kernel) (byte : ℕ) : Option (Option (Intq × Kernel)) → Type 0 where
  waits_full : length (contents q) ≡ 63 → Put q k byte (some none)
  stored :
      (q' : Intq)
      → length (contents q) < 63
      → IsRing q'
      → contents q' ≡ contents q ++ byte ∷ []
      → q'.not_empty ≡ none
      → q'.not_full ≡ q.not_full
      → Put q k byte (some (some (q', k)))

-- What a `getc` comes to: it has to wait at no byte, and else it answers with the queue's first.
pub data Taken (q : Intq) (k : Kernel) : Option (Option (ℕ × (Intq × Kernel))) → Type 0 where
  waits_empty : contents q ≡ [] → Taken q k (some none)
  took :
      (byte : ℕ) (q' : Intq)
      → IsRing q'
      → contents q ≡ byte ∷ contents q'
      → q'.not_full ≡ none
      → q'.not_empty ≡ q.not_empty
      → Taken q k (some (some (byte, (q', k))))

module _ (q : Intq) (k k' : Kernel) (v : IsRing q) where
  -- `putc` adds its byte to the end of a queue of at most 63 bytes, and its ASSERT holds, where the
  -- thread that waits for a byte can be woken.
  pub intq_putc-Put : (byte : ℕ) → wake k q.not_empty ≡ some k' → Put q k' byte (intq_putc q k byte)
  unfolding intq_putc signal_not_empty added contents
  intq_putc-Put byte w = elim (Bool-cases (intq_full q)) [
    | inl full ↦ rw full (waits_full (contents-full q v full))
    | inr room ↦
        (let after = added-IsRing q byte v room in
          rw (room, w)
            (stored (record (added q byte v room) { not_empty = none }) (contents-room q v room)
              (record { storage = after.storage; head_in = after.head_in; tail_in = after.tail_in })
              (added-contents q byte v room) refl refl))
  ]

  -- `getc` takes the first byte of the queue, and its ASSERT holds, where the thread that waits for
  -- room can be woken.
  pub intq_getc-Taken : wake k q.not_full ≡ some k' → Taken q k' (intq_getc q k)
  unfolding intq_getc signal_not_full removed contents
  intq_getc-Taken w = elim (Bool-cases (intq_empty q)) [
    | inl empty ↦ rw empty (waits_empty (contents-empty q v empty))
    | inr some_bytes ↦
        (let after = removed-IsRing q v some_bytes in
          let room : (next_pos q.head == next_pos q.tail) ≡ false =
            ground (arith, some_bytes, v.head_in, v.tail_in) in
          rw (some_bytes, room, w)
            (took (get_or q.buf q.tail 0) (record (removed q v some_bytes) { not_full = none })
              (record { storage = after.storage; head_in = after.head_in; tail_in = after.tail_in })
              (removed-contents q v some_bytes) refl refl))
  ]
