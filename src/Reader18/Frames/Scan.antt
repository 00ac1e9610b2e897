-- ===== src/Reader18/Frames/Scan.antt =====
-- Soundness of `ParseFrames`: where in the stream the frames stand that it returns.
use guhfrtui.Base.{
  ℕ, ◌≤◌, ap, length-append, ◌≡◌, sym, true, List, [], ◌∷◌, ◌++◌, arith, length, take, drop,
  take-append-drop, Bytes,
}
use guhfrtui.Reader18.Packet.{Frame, verify_packet}
use guhfrtui.Reader18.Frames.{total, frame_of, parse_frames}
use guhfrtui.Reader18.Frames.Stream.{
  parse_frames-wait, parse_frames-skip, parse_frames-emit, parse_induction, emit_verified,
  skip_length,
}

-- The stream is a row of frames with dropped bytes between them, and then the rest. Every frame
-- holds a verified packet that stands there, and its fields are read off that packet.
pub data Scans : Bytes → List Frame → Bytes → Type 0 where
  rest : {stream : Bytes} → Scans stream [] stream
  dropped :
      (b : ℕ) {stream last : Bytes} {fs : List Frame}
      → Scans stream fs last
      → Scans (b ∷ stream) fs last
  framed :
      (raw : Bytes) {whole stream last : Bytes} {fs : List Frame}
      → verify_packet raw ≡ true
      → whole ≡ raw ++ stream
      → Scans stream fs last
      → Scans whole (frame_of raw ∷ fs) last

Scans-drop :
    (buf : Bytes) {fs : List Frame} {last : Bytes}
    → 1 ≤ length buf
    → Scans (drop 1 buf) fs last
    → Scans buf fs last
Scans-drop [] h s = absurd (omega arith)
Scans-drop (b ∷ bs) h s = dropped b s

-- Every frame that is returned is a verified packet of the stream, in order and without overlap,
-- and all other bytes were dropped one by one or are the rest.
pub parse_frames-Scans :
    (stream : Bytes) → Scans stream (parse_frames stream).0 (parse_frames stream).1
parse_frames-Scans stream =
    parse_induction (λ buf. Scans buf (parse_frames buf).0 (parse_frames buf).1)
      (λ buf w. rw (parse_frames-wait buf w) rest)
      (λ buf s ih.
        rw (parse_frames-skip buf s) (Scans-drop buf (omega (arith, skip_length buf s)) ih))
      (λ buf e ih. rw (parse_frames-emit buf e) (
        framed (take (total buf) buf) (emit_verified buf e) (sym (take-append-drop (total buf) buf))
          ih))
      (length stream) stream (omega arith)

-- No byte is made up or lost track of.
pub Scans-length :
    {stream last : Bytes} {fs : List Frame} → Scans stream fs last → length last ≤ length stream
Scans-length rest = omega arith
Scans-length (dropped b s) = omega (arith, Scans-length s)
Scans-length (framed raw v e s) = omega (arith, Scans-length s, ap length e, length-append raw _)

pub parse_frames-length : (s : Bytes) → length (parse_frames s).1 ≤ length s
parse_frames-length s = Scans-length (parse_frames-Scans s)
