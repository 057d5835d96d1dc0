-- ===== src/Tests/Queues.antt =====
-- pintos/src/devices/intq.c: a queue whose one byte stands before the end of the buffer.
use ospersonal.Common.{none, refl, arith, replicate}
use ospersonal.Intq.{Intq, intq_putc, intq_getc, wake}
use ospersonal.Intq.Ring.{IsRing}
use ospersonal.Intq.Queue.{Put, Taken, intq_putc-Put, intq_getc-Taken}
use ospersonal.Tests.Machine.{two_threads}

abbrev at_end : Intq
at_end = record { not_full = none; not_empty = none; buf = replicate 64 5; head = 63; tail = 62 }

at_end-IsRing : IsRing at_end
at_end-IsRing = record { storage = refl; head_in = omega arith; tail_in = omega arith }

intq_putc-Put_example : Put at_end two_threads.kernel 9 (intq_putc at_end two_threads.kernel 9)
unfolding wake
intq_putc-Put_example =
    intq_putc-Put at_end two_threads.kernel two_threads.kernel at_end-IsRing 9 refl

intq_getc-Taken_example : Taken at_end two_threads.kernel (intq_getc at_end two_threads.kernel)
unfolding wake
intq_getc-Taken_example =
    intq_getc-Taken at_end two_threads.kernel two_threads.kernel at_end-IsRing refl
