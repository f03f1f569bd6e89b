-- ===== src/Buf/Add.antt =====
-- A buffered file stands for the file that a flush would leave; `buf_add` appends to that file.
use sparkey.Base.{
  ℕ, zero, suc, ◌+◌, ◌≤◌, ◌<◌, List, [], ◌++◌, length, take, drop, Bool, true, false, leb,
  Bool-cases, leb→le, leb→lt, min, length-append, length-drop, take-append-drop, ◌≡◌, refl, sym, ap,
  ◌∙◌, ◌⊎◌, inl, inr, arith,
}
use sparkey.ReturnCode.{ReturnCode, internal_error}
use sparkey.Exec.{Outcome, done, thrown, Exec, ◌>>=◌, ◌>>◌}
use sparkey.File.{WriteResult, overwrite, accept}
use sparkey.File.Write.{IsPlaced, accept-IsPlaced, write_full-Transfers}
use sparkey.File.Overwrite.{overwrite-overwrite, overwrite_nothing}
use sparkey.Buf.{
  Buf, Stream, buf_init, buf_remaining, copy, rewind, on_buf, buf_flushfile, add_loop, buf_add,
}

pub record IsValid (s : Stream) : Type 0 where
  pub room : 0 < s.buf.capacity
  pub within_capacity : length s.buf.bytes ≤ s.buf.capacity
  pub placed : IsPlaced s.file

-- The contents and the offset that a flush would leave.
abbrev pub pending : Stream → List ℕ × ℕ
pending s =
    (overwrite s.file.contents s.file.offset s.buf.bytes, s.file.offset + length s.buf.bytes)

abbrev pub push : List ℕ → List ℕ × ℕ → List ℕ × ℕ
push input (contents, offset) = (overwrite contents offset input, offset + length input)

-- The action returned with `input` appended to the pending file, or with the code of an error.
abbrev pub Adds : List ℕ → Stream → Outcome (Unit {0}) × Stream → Type 0
Adds input s r =
    ((t : Stream) × (r ≡ (done tt, t))
      × IsValid t
      × (t.buf.capacity ≡ s.buf.capacity)
      × (pending t ≡ push input (pending s)))
    ⊎ ((code : ReturnCode) × (t : Stream) × (r ≡ (thrown code, t)))

pub push-push : (a b : List ℕ) (p : List ℕ × ℕ) → push b (push a p) ≡ push (a ++ b) p
push-push a b (c, o) =
    let e : o + length a + length b ≡ o + length (a ++ b) = omega (arith, length-append a b) in
    rw (overwrite-overwrite, e)

pending-copy : (s : Stream) (a : List ℕ) → pending (on_buf (copy a) s) ≡ push a (pending s)
pending-copy s a = sym (push-push s.buf.bytes a (s.file.contents, s.file.offset))

flushed : Stream → List WriteResult → Stream
flushed s left = record s {
  buf = rewind s.buf;
  file = record (accept s.file s.buf.bytes) { answers = left };
}

pending-flushed : (s : Stream) (left : List WriteResult) → pending (flushed s left) ≡ pending s
unfolding flushed
pending-flushed s left =
    let f = accept s.file s.buf.bytes in
    let e : f.offset + 0 ≡ f.offset = omega arith in
    rw (overwrite_nothing f.contents f.offset (accept-IsPlaced s.file s.buf.bytes), e)

-- What `buf_flushfile` does: it empties the buffer and keeps the pending file.
pub flush_cases :
    (s : Stream)
    → IsPlaced s.file
    → ((t : Stream) × (buf_flushfile s ≡ (done tt, t))
        × (t.buf ≡ rewind s.buf)
        × IsPlaced t.file
        × (pending t ≡ pending s))
      ⊎ ((code : ReturnCode) × (t : Stream) × (buf_flushfile s ≡ (thrown code, t)))
unfolding buf_flushfile ◌>>=◌
flush_cases s h = elim (write_full-Transfers s.buf.bytes s.file h) [
  | inl (left, e) ↦ inl (
    flushed s left,
    rw e (unfold flushed in refl),
    (unfold flushed in refl),
    (unfold flushed in accept-IsPlaced s.file s.buf.bytes),
    pending-flushed s left,
  )
  | inr (code, k, left, l, e) ↦ inr (
    code,
    record s { file = record (accept s.file (take k s.buf.bytes)) { answers = left } },
    rw e,
  )
]

copied :
    (s : Stream) (input : List ℕ)
    → IsValid s
    → length input ≤ buf_remaining s.buf
    → IsValid (on_buf (copy input) s)
copied s input v h = record {
  room = v.room;
  within_capacity = omega (arith, length-append s.buf.bytes input, v.within_capacity);
  placed = v.placed;
}

-- The rest of the loop after the buffer was filled and flushed.
add_loop-Adds :
    (fuel : ℕ) (input : List ℕ) (s : Stream)
    → IsValid s
    → length input + min 1 (length s.buf.bytes) < fuel
    → Adds input s (add_loop fuel input s)
unfolding add_loop ◌>>=◌
add_loop-Adds zero input s v h = absurd (omega arith)
add_loop-Adds (suc fuel) input s v h = elim (Bool-cases (leb (length input) remaining)) [
  | inl fits ↦ inl (
    on_buf (copy input) s,
    rw fits,
    copied s input v (leb→le _ _ fits),
    refl,
    pending-copy s input,
  )
  | inr over ↦ elim (flush_cases full v.placed) [
    | inr (code, t, e) ↦ inr (code, t, rw (over, e))
    | inl (t, e, b, p, same) ↦
        let next : Adds back t (add_loop fuel back t) =
          add_loop-Adds fuel back t
            (record { room = rw b v.room; within_capacity = rw b (omega arith); placed = p })
            (omega (
              arith,
              length-drop remaining input,
              leb→lt _ _ over,
              ap (λ (c : Buf). length c.bytes) b,
            )) in
        elim next [
          | inr (code, u, e') ↦ inr (code, u, rw (over, e, e'))
          | inl (u, e', v', cap, pend) ↦ inl (
            u,
            rw (over, e, e'),
            v',
            cap ∙ ap (λ c. c.capacity) b,
            pend
                ∙ ap (push back) (same ∙ pending-copy s front)
                ∙ push-push front back (pending s)
                ∙ ap (λ l. push l (pending s)) (take-append-drop remaining input),
          )
        ]
  ]
]
  where
    remaining : ℕ
    remaining = buf_remaining s.buf

    front : List ℕ
    front = take remaining input

    back : List ℕ
    back = drop remaining input

    full : Stream
    full = on_buf (copy front) s

-- `buf_add` on a buffer with room ends: it returns with its input appended to the pending file, the
-- buffer inside its capacity, or it returns the code of an error. The size of the input does not
-- matter, nor how often the buffer has to be flushed.
pub buf_add-Adds : (input : List ℕ) (s : Stream) → IsValid s → Adds input s (buf_add input s)
unfolding buf_add
buf_add-Adds input s v = add_loop-Adds (length input + 2) input s v (omega arith)

-- One append after another.
pub Adds-then :
    (a b : List ℕ) (m n : Exec Stream (Unit {0})) (s : Stream)
    → Adds a s (m s)
    → ((t : Stream) → IsValid t → Adds b t (n t))
    → Adds (a ++ b) s ((m >> n) s)
unfolding ◌>>=◌
Adds-then a b m n s (inr (code, t, e)) k = inr (code, t, rw e)
Adds-then a b m n s (inl (t, e, v, cap, pend)) k = elim (k t v) [
  | inr (code, u, e') ↦ inr (code, u, rw (e, e'))
  | inl (u, e', v', cap', pend') ↦
      inl (u, rw (e, e'), v', cap' ∙ cap, pend' ∙ ap (push b) pend ∙ push-push a b (pending s))
]

pub buf_init_cases :
    (malloc : Bool) (size : ℕ)
    → (buf_init malloc size ≡ done (record { capacity = size; bytes = [] }))
      ⊎ (buf_init malloc size ≡ thrown internal_error)
unfolding buf_init
buf_init_cases true size = inl refl
buf_init_cases false size = inr refl

pub buf_init-true : (size : ℕ) → buf_init true size ≡ done (record { capacity = size; bytes = [] })
unfolding buf_init
buf_init-true size = refl
