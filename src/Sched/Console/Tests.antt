-- ===== src/Sched/Console/Tests.antt =====
-- Runs of the keyboard, the input buffer and the screen, and their theorems at a small input
-- (sched/kern/console.c).
use tps_sis_ops.Base.{◌≡◌, refl, List, [], ◌∷◌, arith}
use tps_sis_ops.Sched.Console.Keyboard.{kbd_proc_data}
use tps_sis_ops.Sched.Console.{Console, kbd_chars, kbd_intr, cons_intr, cons_getc}
use tps_sis_ops.Sched.Console.Queue.{
  Holds, Request, serial, getc, answers, queue_answers, answers_lem,
}
use tps_sis_ops.Sched.Console.Screen.{Screen, cga_putc, place, put_char, scroll}

-- The key A, then with the shift key held, then with the caps lock.
plain_a : (kbd_chars 0 (0x1e ∷ 0x9e ∷ [])).0 ≡ b'a' ∷ 0 ∷ []
unfolding kbd_chars kbd_proc_data
plain_a = refl

shifted_a : (kbd_chars 0 (0x2a ∷ 0x1e ∷ 0xaa ∷ 0x1e ∷ [])).0 ≡ 0 ∷ b'A' ∷ 0 ∷ b'a' ∷ []
unfolding kbd_chars kbd_proc_data
shifted_a = refl

locked_a : (kbd_chars 0 (0x3a ∷ 0xba ∷ 0x1e ∷ 0x2a ∷ 0x1e ∷ [])).0 ≡ 0 ∷ 0 ∷ b'A' ∷ 0 ∷ b'a' ∷ []
unfolding kbd_chars kbd_proc_data
locked_a = refl

-- The cursor key up, which an escape byte announces.
cursor_up : (kbd_chars 0 (0xe0 ∷ 0x48 ∷ [])).0 ≡ 0 ∷ 0xe2 ∷ []
unfolding kbd_chars kbd_proc_data
cursor_up = refl

-- The empty buffer, about to wrap around.
abbrev empty : Console
empty = record { buf = λ i. 0; rpos = 511; wpos = 511; shift = 0 }

empty-Holds : Holds empty []
empty-Holds = record { room = omega arith; start = omega arith; content = refl }

abbrev requests : List Request
requests =
    serial (b'x' ∷ 0 ∷ b'y' ∷ []) ∷ getc [] (0x1e ∷ []) ∷ getc [] [] ∷ getc [] [] ∷ getc [] [] ∷ []

requests-answers : answers empty requests ≡ b'x' ∷ b'y' ∷ b'a' ∷ 0 ∷ []
unfolding cons_getc kbd_intr cons_intr kbd_chars kbd_proc_data
requests-answers = refl

answers_lem_example : answers empty requests ≡ queue_answers [] 0 requests
unfolding kbd_chars kbd_proc_data
answers_lem_example =
    answers_lem empty [] 0 requests refl empty-Holds
      (omega arith, (omega arith, (omega arith, (omega arith, (omega arith, tt)))))

-- The last cell of the screen.
abbrev full : Screen
full = record { crt_buf = λ i. i; crt_pos = 1999 }

full-scrolled : (cga_putc full b'x').crt_pos ≡ 1920
unfolding cga_putc place put_char scroll
full-scrolled = refl
