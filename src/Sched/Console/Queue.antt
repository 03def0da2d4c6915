-- ===== src/Sched/Console/Queue.antt =====
-- The console's input buffer implements a queue (sched/kern/console.c).
use mathlib.Core.Path.{subst}
use mathlib.Core.List.{append-nil, append_assoc}
use tps_sis_ops.Base.{
  ℕ, ◌+◌, ◌%◌, ◌<◌, ◌≡◌, refl, sym, ap, ap₂, ◌∙◌, inl, inr, List, [], ◌∷◌, ◌++◌, length,
  length-append, true, false, ◌==◌, if◌then◌else◌, Bool-cases, update, arith,
}
use tps_sis_ops.Sched.Console.{
  consbufsize, Console, wrap_next, stash, cons_intr, kbd_chars, kbd_intr, next_char, cons_getc,
}

-- The characters that the buffer keeps: all but 0, as bytes.
abbrev pub kept : List ℕ → List ℕ
kept [] = []
kept (c ∷ cs) = let rest = kept cs in if c == 0 then rest else c % 256 ∷ rest

-- The buffer holds the characters from a position on, and ends at another.
abbrev Content : (ℕ → ℕ) → ℕ → List ℕ → ℕ → Type 0
Content buf p [] w = p ≡ w
Content buf p (v ∷ vs) w = (buf p ≡ v) × Content buf (wrap_next p) vs w

-- The buffer holds the queue `q`.
pub record Holds (con : Console) (q : List ℕ) : Type 0 where
  pub room : length q < consbufsize
  pub start : con.rpos < consbufsize
  pub content : Content con.buf con.rpos q con.wpos

wrap_next_lem : (p : ℕ) → p < consbufsize → wrap_next p ≡ (p + 1) % consbufsize
wrap_next_lem p lt = ground arith

Content-end :
    (buf : ℕ → ℕ) (p : ℕ) (q : List ℕ) (w : ℕ)
    → p < consbufsize
    → Content buf p q w
    → (p + length q) % consbufsize ≡ w
Content-end buf p [] w lt h = omega (arith, lt, h)
Content-end buf p (v ∷ vs) w lt (at, h) =
    let n = wrap_next_lem p lt in
    let r = Content-end buf (wrap_next p) vs w (omega (arith, n)) h in omega (arith, n, r)

-- A write behind the queue leaves it as it is, and lengthens it.
Content-snoc :
    (buf : ℕ → ℕ) (p : ℕ) (q : List ℕ) (w v : ℕ)
    → p < consbufsize
    → length q < consbufsize
    → Content buf p q w
    → Content (update buf w v) p (q ++ (v ∷ [])) (wrap_next w)
Content-snoc buf p [] w v lt room h =
    let same : (p == w) ≡ true = ground arith in (rw same refl, ap wrap_next h)
Content-snoc buf p (x ∷ xs) w v lt room (at, h) =
    let n = wrap_next_lem p lt in
    let e = Content-end buf (wrap_next p) xs w (omega (arith, n)) h in
    let other : (p == w) ≡ false = ground (arith, n, e) in
    (rw other at, Content-snoc buf (wrap_next p) xs w v (omega (arith, n)) (omega (arith, room)) h)

stash-Holds :
    (con : Console) (q : List ℕ) (c : ℕ)
    → Holds con q
    → length (q ++ kept (c ∷ [])) < consbufsize
    → Holds (stash con c) (q ++ kept (c ∷ []))
stash-Holds con q c h room = elim (Bool-cases (c == 0)) [
  | inl e ↦ rw e (subst (Holds con) (sym (append-nil q)) h)
  | inr e ↦
      let room' : length (q ++ (c % 256 ∷ [])) < consbufsize =
        subst (λ b. length (q ++ (if b then [] else c % 256 ∷ [])) < consbufsize) e room in
      rw e record {
        room = room';
        start = h.start;
        content = Content-snoc con.buf con.rpos q con.wpos (c % 256) h.start h.room h.content;
      }
]

kept-cons : (c : ℕ) (cs : List ℕ) → kept (c ∷ cs) ≡ kept (c ∷ []) ++ kept cs
kept-cons c cs = elim (Bool-cases (c == 0)) [ inl e ↦ rw e refl | inr e ↦ rw e refl ]

-- The characters that come in go to the end of the queue.
cons_intr-Holds :
    (con : Console) (q cs : List ℕ)
    → Holds con q
    → length (q ++ kept cs) < consbufsize
    → Holds (cons_intr con cs) (q ++ kept cs)
unfolding cons_intr
cons_intr-Holds con q [] h room = subst (Holds con) (sym (append-nil q)) h
cons_intr-Holds con q (c ∷ cs) h room =
    let split : q ++ kept (c ∷ cs) ≡ (q ++ kept (c ∷ [])) ++ kept cs =
      ap (λ z. q ++ z) (kept-cons c cs) ∙ sym (append_assoc q (kept (c ∷ [])) (kept cs)) in
    let room' = subst (λ z. length z < consbufsize) split room in
    let first : length (q ++ kept (c ∷ [])) < consbufsize =
      omega (arith, room', length-append (q ++ kept (c ∷ [])) (kept cs)) in
    subst (Holds (cons_intr (stash con c) cs)) (sym split)
      (cons_intr-Holds (stash con c) (q ++ kept (c ∷ [])) cs (stash-Holds con q c h first) room')

Holds-shift :
    (con : Console) (q : List ℕ) (s : ℕ) → Holds con q → Holds (record con { shift = s }) q
Holds-shift con q s h = record { room = h.room; start = h.start; content = h.content }

-- What is asked of the console: an interrupt with bytes of the serial port, one with bytes of the
-- keyboard, or `cons_getc`, which polls both.
pub data Request : Type 0 where
  serial keyboard : List ℕ → Request
  getc : List ℕ → List ℕ → Request

-- The console's answers to requests; only `cons_getc` has one.
abbrev pub answers : Console → List Request → List ℕ
answers con [] = []
answers con (serial cs ∷ rs) = answers (cons_intr con cs) rs
answers con (keyboard ds ∷ rs) = answers (kbd_intr con ds) rs
answers con (getc cs ds ∷ rs) = (cons_getc con cs ds).0 ∷ answers (cons_getc con cs ds).1 rs

-- The specification: a queue of characters beside the keyboard's shift state.
abbrev pub arrivals : ℕ → List ℕ → List ℕ → List ℕ
arrivals shift cs ds = kept cs ++ kept (kbd_chars shift ds).0

abbrev pub front : List ℕ → ℕ
front [] = 0
front (x ∷ xs) = x

abbrev pub rest_of : List ℕ → List ℕ
rest_of [] = []
rest_of (x ∷ xs) = xs

abbrev pub queue_answers : List ℕ → ℕ → List Request → List ℕ
queue_answers q shift [] = []
queue_answers q shift (serial cs ∷ rs) = queue_answers (q ++ kept cs) shift rs
queue_answers q shift (keyboard ds ∷ rs) =
    queue_answers (q ++ kept (kbd_chars shift ds).0) (kbd_chars shift ds).1 rs
queue_answers q shift (getc cs ds ∷ rs) =
    front (q ++ arrivals shift cs ds)
    ∷ queue_answers (rest_of (q ++ arrivals shift cs ds)) (kbd_chars shift ds).1 rs

-- The queue never gets as long as the buffer.
abbrev pub Fits : List ℕ → ℕ → List Request → Type 0
Fits q shift [] = Unit
Fits q shift (serial cs ∷ rs) = (length (q ++ kept cs) < consbufsize) × Fits (q ++ kept cs) shift rs
Fits q shift (keyboard ds ∷ rs) =
    (length (q ++ kept (kbd_chars shift ds).0) < consbufsize)
    × Fits (q ++ kept (kbd_chars shift ds).0) (kbd_chars shift ds).1 rs
Fits q shift (getc cs ds ∷ rs) =
    (length (q ++ arrivals shift cs ds) < consbufsize)
    × Fits (rest_of (q ++ arrivals shift cs ds)) (kbd_chars shift ds).1 rs

cons_intr-shift : (con : Console) (cs : List ℕ) → (cons_intr con cs).shift ≡ con.shift
unfolding cons_intr
cons_intr-shift con [] = refl
cons_intr-shift con (c ∷ cs) = cons_intr-shift (stash con c) cs ∙ stash-shift con c
  where
    stash-shift : (con : Console) (c : ℕ) → (stash con c).shift ≡ con.shift
    stash-shift con c = elim (Bool-cases (c == 0)) [ inl e ↦ rw e refl | inr e ↦ rw e refl ]

kbd_intr-Holds :
    (con : Console) (q ds : List ℕ)
    → Holds con q
    → length (q ++ kept (kbd_chars con.shift ds).0) < consbufsize
    → Holds (kbd_intr con ds) (q ++ kept (kbd_chars con.shift ds).0)
unfolding kbd_intr
kbd_intr-Holds con q ds h room =
    let chars = kbd_chars con.shift ds in
    cons_intr-Holds (record con { shift = chars.1 }) q chars.0 (Holds-shift con q chars.1 h) room

kbd_intr-shift :
    (con : Console) (ds : List ℕ) → (kbd_intr con ds).shift ≡ (kbd_chars con.shift ds).1
unfolding kbd_intr
kbd_intr-shift con ds =
    let chars = kbd_chars con.shift ds in cons_intr-shift (record con { shift = chars.1 }) chars.0

next_char-Holds :
    (con : Console) (q : List ℕ)
    → Holds con q
    → ((next_char con).0 ≡ front q)
      × Holds (next_char con).1 (rest_of q)
      × ((next_char con).1.shift ≡ con.shift)
next_char-Holds con [] h =
    let e : (con.rpos == con.wpos) ≡ true = let c = h.content in ground arith in
    rw e (refl, h, refl)
next_char-Holds con (x ∷ xs) h =
    let n = wrap_next_lem con.rpos h.start in
    let end = Content-end con.buf con.rpos (x ∷ xs) con.wpos h.start h.content in
    let room = h.room in
    let e : (con.rpos == con.wpos) ≡ false = ground arith in
    rw e (
      h.content.0,
      record { room = omega (arith, room); start = omega (arith, n); content = h.content.1 },
      refl,
    )

-- The poll of both devices, and the answer.
cons_getc-Holds :
    (con : Console) (q cs ds : List ℕ)
    → Holds con q
    → length (q ++ arrivals con.shift cs ds) < consbufsize
    → ((cons_getc con cs ds).0 ≡ front (q ++ arrivals con.shift cs ds))
      × Holds (cons_getc con cs ds).1 (rest_of (q ++ arrivals con.shift cs ds))
      × ((cons_getc con cs ds).1.shift ≡ (kbd_chars con.shift ds).1)
unfolding cons_getc
cons_getc-Holds con q cs ds h room =
    let split : q ++ arrivals con.shift cs ds ≡ (q ++ kept cs) ++ kept (kbd_chars con.shift ds).0 =
      sym (append_assoc q (kept cs) (kept (kbd_chars con.shift ds).0)) in
    let room' = subst (λ z. length z < consbufsize) split room in
    let first : length (q ++ kept cs) < consbufsize =
      omega (arith, room', length-append (q ++ kept cs) (kept (kbd_chars con.shift ds).0)) in
    let con1 = cons_intr con cs in
    let same : con1.shift ≡ con.shift = cons_intr-shift con cs in
    let keys : kbd_chars con1.shift ds ≡ kbd_chars con.shift ds = ap (λ s. kbd_chars s ds) same in
    let held =
      kbd_intr-Holds con1 (q ++ kept cs) ds (cons_intr-Holds con q cs h first)
        (subst (λ z. length ((q ++ kept cs) ++ kept z.0) < consbufsize) (sym keys) room') in
    let whole : (q ++ kept cs) ++ kept (kbd_chars con1.shift ds).0 ≡ q ++ arrivals con.shift cs ds =
      ap (λ z. (q ++ kept cs) ++ kept z.0) keys ∙ sym split in
    let (given, after, shifted) =
      next_char-Holds (kbd_intr con1 ds) _ (subst (Holds (kbd_intr con1 ds)) whole held) in
    (given, after, shifted ∙ kbd_intr-shift con1 ds ∙ ap (λ z. z.1) keys)

-- As long as no more than 511 characters wait, the console answers a queue's answers: every character
-- that came in, but 0, is given once, in the order of their coming.
pub answers_lem :
    (con : Console) (q : List ℕ) (shift : ℕ) (rs : List Request)
    → con.shift ≡ shift
    → Holds con q
    → Fits q shift rs
    → answers con rs ≡ queue_answers q shift rs
answers_lem con q shift [] s h f = refl
answers_lem con q shift (serial cs ∷ rs) s h (room, f) =
    answers_lem (cons_intr con cs) (q ++ kept cs) shift rs (cons_intr-shift con cs ∙ s)
      (cons_intr-Holds con q cs h room) f
answers_lem con q shift (keyboard ds ∷ rs) s h (room, f) =
    let held =
      subst
        (λ z.
          length (q ++ kept (kbd_chars z ds).0) < consbufsize
          → Holds (kbd_intr con ds) (q ++ kept (kbd_chars z ds).0))
        s (kbd_intr-Holds con q ds h) in
    answers_lem (kbd_intr con ds) (q ++ kept (kbd_chars shift ds).0) (kbd_chars shift ds).1 rs
      (kbd_intr-shift con ds ∙ ap (λ z. (kbd_chars z ds).1) s) (held room) f
answers_lem con q shift (getc cs ds ∷ rs) s h (room, f) =
    let polled =
      subst
        (λ z.
          length (q ++ arrivals z cs ds) < consbufsize
          → ((cons_getc con cs ds).0 ≡ front (q ++ arrivals z cs ds))
            × Holds (cons_getc con cs ds).1 (rest_of (q ++ arrivals z cs ds))
            × ((cons_getc con cs ds).1.shift ≡ (kbd_chars z ds).1))
        s (cons_getc-Holds con q cs ds h) in
    let (given, after, shifted) = polled room in
    ap₂ (λ c cs. c ∷ cs) given
      (answers_lem (cons_getc con cs ds).1 (rest_of (q ++ arrivals shift cs ds))
        (kbd_chars shift ds).1 rs shifted after f)
