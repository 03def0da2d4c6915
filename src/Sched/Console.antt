-- ===== src/Sched/Console.antt =====
-- The console: its input buffer and the text screen (sched/kern/console.c). The bytes that the serial
-- port and the keyboard give at a poll, until one finds none, are the lists that the functions take;
-- output to the serial and the parallel port is not modelled.
pub mod Keyboard
pub mod Queue
pub mod Screen
mod Tests
use tps_sis_ops.Base.{ℕ, ◌+◌, ◌%◌, List, [], ◌∷◌, ◌==◌, if◌then◌else◌, update}
use tps_sis_ops.Sched.Console.Keyboard.{kbd_proc_data}

abbrev pub consbufsize : ℕ
consbufsize = 512

-- `cons`, and the `shift` of `kbd_proc_data`.
pub record Console : Type 0 where
  pub buf : ℕ → ℕ
  pub rpos : ℕ
  pub wpos : ℕ
  pub shift : ℕ

-- A position that is incremented, and wraps.
abbrev pub wrap_next : ℕ → ℕ
wrap_next p = if p + 1 == consbufsize then 0 else p + 1

-- A round of the loop of `cons_intr`.
abbrev pub stash : Console → ℕ → Console
stash con c =
    if c == 0
    then con
    else record con { buf = update con.buf con.wpos (c % 256); wpos = wrap_next con.wpos }

-- `cons_intr`, for what the calls of `proc` return before -1.
unfoldable pub cons_intr : Console → List ℕ → Console
cons_intr con [] = con
cons_intr con (c ∷ cs) = cons_intr (stash con c) cs

-- What the calls of `kbd_proc_data` return for the given bytes, and the last `shift`.
unfoldable pub kbd_chars : ℕ → List ℕ → List ℕ × ℕ
kbd_chars shift [] = ([], shift)
kbd_chars shift (d ∷ ds) =
    let now = kbd_proc_data shift d in let rest = kbd_chars now.1 ds in (now.0 ∷ rest.0, rest.1)

unfoldable pub kbd_intr : Console → List ℕ → Console
kbd_intr con bytes =
    let chars = kbd_chars con.shift bytes in cons_intr (record con { shift = chars.1 }) chars.0

-- The end of `cons_getc`.
abbrev pub next_char : Console → ℕ × Console
next_char con =
    if con.rpos == con.wpos
    then (0, con)
    else (con.buf con.rpos, record con { rpos = wrap_next con.rpos })

-- `cons_getc`, for the bytes of the serial port and those of the keyboard.
unfoldable pub cons_getc : Console → List ℕ → List ℕ → ℕ × Console
cons_getc con serial keys = next_char (kbd_intr (cons_intr con serial) keys)
