-- ===== src/Resp/Buffer.antt =====
-- The encoders' buffer, a `std::vector<char>`, and the calls on it: `resize`, `std::memcpy` and
-- `strlen`. A write outside the buffer is undefined.
use redis_cpp.Prelude.{
  ℕ, zero, suc, List, ◌+◌, ◌-◌, ◌≤◌, ◌≡◌, refl, ap, ◌∙◌, [], ◌∷◌, ◌++◌, append_assoc, append-nil,
  length, take, drop, replicate, length-append, length-take, length-drop, length-replicate,
  take-length_append, arith, leb, ◌==◌, if◌then◌else◌,
}
use redis_cpp.Prelude.Bytes.{Bytes, Lacks}
use redis_cpp.Prelude.Outcome.{Outcome, ok, undefined, ◌>>=◌}

-- New elements are zero.
unfoldable pub resize : ℕ → Bytes → Bytes
resize n buf = take n buf ++ replicate (n - length buf) 0

pub length-resize : (n : ℕ) (buf : Bytes) → length (resize n buf) ≡ n
unfolding resize
length-resize n buf = omega (
  arith,
  length-append (take n buf) (replicate (n - length buf) 0),
  length-take n buf,
  length-replicate {A = ℕ} (n - length buf) 0,
)

unfoldable pub memcpy : Bytes → ℕ → Bytes → Outcome Bytes
memcpy buf offset src =
    if leb (offset + length src) (length buf)
    then ok (take offset buf ++ (src ++ drop (offset + length src) buf))
    else undefined

-- A buffer and the `offset` at which the next write goes.
abbrev pub Writer : Type 0
Writer = Bytes × ℕ

-- `memcpy(buf.data() + offset, src, len); offset += len;`
unfoldable pub write : Bytes → Writer → Outcome Writer
unfolding memcpy
write src (buf, offset) = do buf' ← memcpy buf offset src; ok (buf', offset + length src)

-- Writes in order; `buf[offset++] = c;` is the write of one byte.
unfoldable pub write_all : List Bytes → Writer → Outcome Writer
write_all [] w = ok w
write_all (src ∷ srcs) w = do w' ← write src w; write_all srcs w'

abbrev pub concat : List Bytes → Bytes
concat [] = []
concat (s ∷ ss) = s ++ concat ss

-- `done` is written, and `left` bytes of room follow.
abbrev pub Written : Bytes → ℕ → Writer → Type 0
Written done left w =
    (hole : Bytes) × (w.0 ≡ done ++ hole) × (w.1 ≡ length done) × (length hole ≡ left)

pub Written-resize : (n : ℕ) (buf : Bytes) → Written [] n (resize n buf, 0)
Written-resize n buf = (resize n buf, refl, refl, length-resize n buf)

drop-append_further : (xs ys : Bytes) (k : ℕ) → drop (length xs + k) (xs ++ ys) ≡ drop k ys
drop-append_further [] ys k = ap (λ n. drop n ys) (omega arith)
drop-append_further (x ∷ xs) ys k =
    ap (λ n. drop n (x ∷ (xs ++ ys))) (next (length xs)) ∙ drop-append_further xs ys k
  where
    next : (n : ℕ) → suc n + k ≡ suc (n + k)
    next n = omega arith

-- Writing behind what is written keeps the rest of the room.
pub memcpy_lem :
    (done hole src : Bytes)
    → length src ≤ length hole
    → memcpy (done ++ hole) (length done) src ≡ ok ((done ++ src) ++ drop (length src) hole)
unfolding memcpy
memcpy_lem done hole src h = ground (
  arith,
  length-append done hole,
  take-length_append done hole,
  drop-append_further done hole (length src),
  append_assoc done src (drop (length src) hole),
)

-- A write that fits goes behind what is written.
pub write-Written :
    (done src : Bytes) (left : ℕ) (w : Writer)
    → Written done (length src + left) w
    → (w' : Writer) × (write src w ≡ ok w') × Written (done ++ src) left w'
unfolding write
write-Written done src left (buf, offset) (hole, e, o, room) = (
  ((done ++ src) ++ drop (length src) hole, offset + length src),
  rw (e, o, memcpy_lem done hole src (omega arith)),
  (
    drop (length src) hole,
    refl,
    omega (arith, length-append done src),
    omega (arith, length-drop (length src) hole),
  ),
)

pub write_all-Written :
    (srcs : List Bytes) (done : Bytes) (left : ℕ) (w : Writer)
    → Written done (length (concat srcs) + left) w
    → (w' : Writer) × (write_all srcs w ≡ ok w') × Written (done ++ concat srcs) left w'
unfolding write_all
write_all-Written [] done left w (hole, e, o, room) =
    (w, refl, (hole, rw (append-nil done) e, rw (append-nil done) o, omega arith))
write_all-Written (src ∷ srcs) done left w (hole, e, o, room) =
    let (w₁, e₁, d₁) =
      write-Written done src (length (concat srcs) + left) w
        (hole, e, o, omega (arith, length-append src (concat srcs))) in
    let (w₂, e₂, d₂) = write_all-Written srcs (done ++ src) left w₁ d₁ in
    (w₂, rw (e₁, e₂), rw (append_assoc done src (concat srcs)) at d₂)

Written-full : (done : Bytes) (w : Writer) → Written done 0 w → w ≡ (done, length done)
Written-full done w ([], e, o, room) = λ i. ((e ∙ append-nil done) i, o i)
Written-full done w (x ∷ hole, e, o, room) = absurd (omega arith)

-- Writes that add up to the size of the buffer fill it.
pub write_all-resize :
    (srcs : List Bytes) (n : ℕ) (buf : Bytes)
    → n ≡ length (concat srcs)
    → write_all srcs (resize n buf, 0) ≡ ok (concat srcs, n)
write_all-resize srcs n buf e =
    let (w, e₁, d) =
      write_all-Written srcs [] 0 (resize n buf, 0)
        (resize n buf, refl, refl, omega (arith, length-resize n buf)) in
    rw e₁ (ap ok (rw (← e) at (Written-full (concat srcs) w d)))

take_beyond : (s : Bytes) (n : ℕ) → n ≡ length s + 1 → take n s ≡ s
take_beyond [] zero h = refl
take_beyond [] (suc n) h = refl
take_beyond (x ∷ s) zero h = absurd (omega arith)
take_beyond (x ∷ s) (suc n) h = ap (◌∷◌ x) (take_beyond s n (omega arith))

-- Growing a full buffer by one byte adds the terminator.
pub resize_next : (buf : Bytes) → resize (length buf + 1) buf ≡ buf ++ 0 ∷ []
unfolding resize
resize_next buf =
    let room : length buf + 1 - length buf ≡ 1 = omega arith in
    rw (take_beyond buf (length buf + 1) refl, room)

-- `strlen`: a buffer with no terminator is read past its end.
unfoldable pub c_string : Bytes → Outcome Bytes
c_string [] = undefined
c_string (c ∷ s) = if c == 0 then ok [] else c_string s >>= λ rest. ok (c ∷ rest)

-- The text before the terminator is what is read.
pub c_string-append : (s t : Bytes) → Lacks 0 s → c_string (s ++ 0 ∷ t) ≡ ok s
unfolding c_string
c_string-append [] t h = refl
c_string-append (c ∷ s) t h = ground (arith, c_string-append s t h.1)
