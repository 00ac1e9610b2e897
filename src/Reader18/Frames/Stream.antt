-- ===== src/Reader18/Frames/Stream.antt =====
-- `ParseFrames` on a stream that arrives in pieces: its fuel, the bytes that it keeps back, and where
-- the stream is cut.
use guhfrtui.Base.{
  ℕ, zero, suc, ◌+◌, ◌≤◌, ◌<◌, ◌≡◌, ◌≢◌, refl, sym, ap, ap₂, ◌∙◌, ◌⊎◌, inl, inr, true, [], ◌∷◌,
  ◌++◌, arith, length, take, drop, get_or, length-append, length-drop, take-append_le,
  drop-append_le, Bytes,
}
use guhfrtui.Reader18.Packet.{verify_packet}
use guhfrtui.Reader18.Frames.{
  Action, wait, skip, emit, total, action, frame_of, Parsed, prepend, parse_loop, parse_frames,
}

pub Action-cases : (a : Action) → (a ≡ wait) ⊎ (a ≡ skip) ⊎ (a ≡ emit)
Action-cases wait = inl refl
Action-cases skip = inr (inl refl)
Action-cases emit = inr (inr refl)

module _ (buf : Bytes) where
  pub skip_length : action buf ≡ skip → 6 ≤ length buf
  unfolding action
  skip_length h = ground arith

  pub emit_length : action buf ≡ emit → (6 ≤ total buf) × (total buf ≤ length buf)
  unfolding action
  emit_length h = ground arith

  pub emit_verified : action buf ≡ emit → verify_packet (take (total buf) buf) ≡ true
  unfolding action
  emit_verified h = ground arith

module _ (fuel : ℕ) (buf : Bytes) where
  pub parse_loop-wait : action buf ≡ wait → parse_loop (suc fuel) buf ≡ ([], buf)
  unfolding parse_loop
  parse_loop-wait h = rw (h, parse_loop)

  pub parse_loop-skip : action buf ≡ skip → parse_loop (suc fuel) buf ≡ parse_loop fuel (drop 1 buf)
  unfolding parse_loop
  parse_loop-skip h = rw (h, parse_loop)

  pub parse_loop-emit :
      action buf ≡ emit
      → parse_loop (suc fuel) buf
        ≡ prepend (frame_of (take (total buf) buf)) (parse_loop fuel (drop (total buf) buf))
  unfolding parse_loop
  parse_loop-emit h = rw (h, parse_loop)

parse_loop-nil : (n : ℕ) → parse_loop n [] ≡ ([], [])
unfolding parse_loop action
parse_loop-nil zero = refl
parse_loop-nil (suc n) = refl

-- Any fuel of at least the buffer's length gives the same result.
pub parse_loop_fuel :
    (n m : ℕ) (buf : Bytes) → length buf ≤ n → length buf ≤ m → parse_loop n buf ≡ parse_loop m buf
parse_loop_fuel n m [] p q = parse_loop-nil n ∙ sym (parse_loop-nil m)
parse_loop_fuel zero m (x ∷ xs) p q = absurd (omega arith)
parse_loop_fuel (suc n) zero (x ∷ xs) p q = absurd (omega arith)
parse_loop_fuel (suc n) (suc m) (x ∷ xs) p q =
    let buf = x ∷ xs in
    elim (Action-cases (action buf)) [
      | inl w ↦ parse_loop-wait n buf w ∙ sym (parse_loop-wait m buf w)
      | inr (inl s) ↦
          parse_loop-skip n buf s
          ∙ parse_loop_fuel n m xs (omega arith) (omega arith)
          ∙ sym (parse_loop-skip m buf s)
      | inr (inr e) ↦
          parse_loop-emit n buf e
          ∙ ap (prepend (frame_of (take (total buf) buf))) (
              parse_loop_fuel n m (drop (total buf) buf)
                (omega (arith, length-drop (total buf) buf, emit_length buf e))
                (omega (arith, length-drop (total buf) buf, emit_length buf e)))
          ∙ sym (parse_loop-emit m buf e)
    ]

-- The rounds of the loop, without the fuel.
module _ (buf : Bytes) where
  pub parse_frames-wait : action buf ≡ wait → parse_frames buf ≡ ([], buf)
  unfolding parse_frames
  parse_frames-wait w =
      parse_loop_fuel (length buf) (suc (length buf)) buf (omega arith) (omega arith)
      ∙ parse_loop-wait (length buf) buf w

  pub parse_frames-skip : action buf ≡ skip → parse_frames buf ≡ parse_frames (drop 1 buf)
  unfolding parse_frames
  parse_frames-skip s =
      parse_loop_fuel (length buf) (suc (length buf)) buf (omega arith) (omega arith)
      ∙ parse_loop-skip (length buf) buf s
      ∙ parse_loop_fuel (length buf) (length (drop 1 buf)) (drop 1 buf)
          (omega (arith, length-drop 1 buf)) (omega arith)

  pub parse_frames-emit :
      action buf ≡ emit
      → parse_frames buf
        ≡ prepend (frame_of (take (total buf) buf)) (parse_frames (drop (total buf) buf))
  unfolding parse_frames
  parse_frames-emit e =
      parse_loop_fuel (length buf) (suc (length buf)) buf (omega arith) (omega arith)
      ∙ parse_loop-emit (length buf) buf e
      ∙ ap (prepend (frame_of (take (total buf) buf))) (
          parse_loop_fuel (length buf) (length (drop (total buf) buf)) (drop (total buf) buf)
            (omega (arith, length-drop (total buf) buf)) (omega arith))

-- Induction over the rounds of the loop.
pub parse_induction {ℓ} :
    (P : Bytes → Type ℓ)
    → ((buf : Bytes) → action buf ≡ wait → P buf)
    → ((buf : Bytes) → action buf ≡ skip → P (drop 1 buf) → P buf)
    → ((buf : Bytes) → action buf ≡ emit → P (drop (total buf) buf) → P buf)
    → (n : ℕ) (buf : Bytes) → length buf ≤ n
    → P buf
parse_induction P pw ps pe zero buf h = elim (Action-cases (action buf)) [
  | inl w ↦ pw buf w
  | inr (inl s) ↦ absurd (omega (arith, skip_length buf s))
  | inr (inr e) ↦ absurd (omega (arith, emit_length buf e))
]
parse_induction P pw ps pe (suc n) buf h = elim (Action-cases (action buf)) [
  | inl w ↦ pw buf w
  | inr (inl s) ↦ ps buf s (
      parse_induction P pw ps pe n (drop 1 buf)
        (omega (arith, length-drop 1 buf, skip_length buf s)))
  | inr (inr e) ↦ pe buf e (
      parse_induction P pw ps pe n (drop (total buf) buf)
        (omega (arith, length-drop (total buf) buf, emit_length buf e)))
]

-- No complete frame starts the buffer: it is too short for a header, or for what its header says.
abbrev pub IsIncomplete : Bytes → Type 0
IsIncomplete buf = (length buf < 6) ⊎ ((6 ≤ total buf) × (length buf < total buf))

wait-IsIncomplete : (buf : Bytes) → action buf ≡ wait → IsIncomplete buf
unfolding action
wait-IsIncomplete buf w = ground arith

-- The parser always runs to its own end: what it keeps back for the next packet starts no
-- complete frame, whatever the stream.
pub parse_frames-IsIncomplete : (stream : Bytes) → IsIncomplete (parse_frames stream).1
parse_frames-IsIncomplete stream =
    parse_induction (λ buf. IsIncomplete (parse_frames buf).1)
      (λ buf w. rw (parse_frames-wait buf w) (wait-IsIncomplete buf w))
      (λ buf s ih. rw (parse_frames-skip buf s) ih) (λ buf e ih. rw (parse_frames-emit buf e) ih)
      (length stream) stream (omega arith)

get_or-append_head : (a b : Bytes) → 1 ≤ length a → get_or (a ++ b) 0 0 ≡ get_or a 0 0
get_or-append_head [] b h = absurd (omega arith)
get_or-append_head (x ∷ a) b h = refl

-- A round that goes on reads no byte beyond those it takes.
action_append : (a b : Bytes) → action a ≢ wait → action (a ++ b) ≡ action a
unfolding action
action_append a b ne =
    ground (arith, length-append a b, get_or-append_head a b, take-append_le (total a) a b)

-- Parse `more` behind what an earlier call kept back.
abbrev pub resume : Parsed → Bytes → Parsed
resume (fs, rest) more = let (gs, last) = parse_frames (rest ++ more) in (fs ++ gs, last)

-- Where the stream is cut does not matter: parsing it whole gives the frames of the first part
-- followed by those of the bytes kept back with the second part, and the same rest.
pub parse_frames-append : (a b : Bytes) → parse_frames (a ++ b) ≡ resume (parse_frames a) b
parse_frames-append a b =
    parse_induction (λ buf. parse_frames (buf ++ b) ≡ resume (parse_frames buf) b)
      (λ buf w. rw (parse_frames-wait buf w))
      (λ buf s ih.
        parse_frames-skip (buf ++ b) (action_append buf b (λ w. cc) ∙ s)
        ∙ ap parse_frames (drop-append_le 1 buf b (omega (arith, skip_length buf s)))
        ∙ ih
        ∙ ap (λ r. resume r b) (sym (parse_frames-skip buf s)))
      (λ buf e ih.
        parse_frames-emit (buf ++ b) (action_append buf b (λ w. cc) ∙ e)
        ∙ ap (λ (t : ℕ). prepend (frame_of (take t (buf ++ b))) (parse_frames (drop t (buf ++ b))))
            (ap (λ (x : ℕ). x + 1) (get_or-append_head buf b (omega (arith, emit_length buf e))))
        ∙ ap₂ (λ (r d : Bytes). prepend (frame_of r) (parse_frames d))
            (take-append_le (total buf) buf b (emit_length buf e).1)
            (drop-append_le (total buf) buf b (emit_length buf e).1)
        ∙ ap (prepend (frame_of (take (total buf) buf))) ih
        ∙ ap (λ r. resume r b) (sym (parse_frames-emit buf e)))
      (length a) a (omega arith)
