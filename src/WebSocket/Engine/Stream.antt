-- ===== src/WebSocket/Engine/Stream.antt =====
-- The read loop: it ends on every input, keeps the reassembly well formed, and delivers what the
-- session may deliver.
use native.Mathlib.Numerals.{add-one}
use openwire.Base.{
  ℕ, zero, suc, ◌+◌, ◌<◌, ◌≡◌, refl, sym, ap, subst, inl, inr, Bool, true, false, Bool-cases, List,
  [], ◌∷◌, ◌++◌, Option, none, some, arith, length, length-append, ok, err,
}
use openwire.WebSocket.Error.{EngineResult}
use openwire.WebSocket.Codec.{DecodedFrame, decode_frame}
use openwire.WebSocket.Codec.Bounds.{IsCutFrom, decode_frame-IsCutFrom}
use openwire.WebSocket.Message.{EngineFrame}
use openwire.WebSocket.Session.{Fed, feed, end_of_stream}
use openwire.WebSocket.Session.Invariant.{IsPartial, IsDeliverable, IsFed, feed-IsFed}
use openwire.WebSocket.Engine.{
  NativeStream, ReadEvent, not_yet, chunk, read_failed, Polled, Poll, pending, ready, at_eof, fill,
  deliver_frame, next_round, poll_loop, size_of_reads, poll_next,
}

-- The reassembly of a stream between polls, under the limit that it was made with.
abbrev pub IsOpen : ℕ → NativeStream → Type 0
IsOpen limit me =
    (me.reassembly.max_message_size ≡ limit) × IsPartial limit me.reassembly.in_progress

abbrev pub is_end : Poll (Option (EngineResult EngineFrame)) → Bool
is_end pending = false
is_end (ready none) = true
is_end (ready (some (ok f))) = false
is_end (ready (some (err e))) = true

abbrev pub ItemDeliverable : ℕ → Poll (Option (EngineResult EngineFrame)) → Type 0
ItemDeliverable limit (ready (some (ok f))) = IsDeliverable limit f
ItemDeliverable limit _ = Unit

-- Behind an error or the end of the input nothing more is read.
abbrev pub EndMarked : Polled → Type 0
EndMarked p = is_end p.item ≡ true → p.stream.done ≡ true

abbrev pub IsPolled : ℕ → Polled → Type 0
IsPolled limit p = IsOpen limit p.stream × ItemDeliverable limit p.item × EndMarked p

abbrev Returns : ℕ → Option Polled → Type 0
Returns limit none = ⊥
Returns limit (some p) = IsPolled limit p

abbrev size : NativeStream → List ReadEvent → ℕ
size me reads = length me.buf + size_of_reads reads

-- The rest of the loop does its part on every smaller input.
abbrev Continues : ℕ → ℕ → (NativeStream → List ReadEvent → Option Polled) → Type 0
Continues limit bound continue =
    (t : NativeStream) (r : List ReadEvent)
    → IsOpen limit t
    → size t r < bound
    → Returns limit (continue t r)

at_eof-IsPolled :
    (limit : ℕ) (me : NativeStream) (reads : List ReadEvent)
    → IsOpen limit me
    → IsPolled limit (at_eof me reads)
unfolding at_eof end_of_stream
at_eof-IsPolled limit me reads h = ground arith

fill-Returns :
    (limit : ℕ) (me : NativeStream) (reads : List ReadEvent)
    (continue : NativeStream → List ReadEvent → Option Polled)
    → IsOpen limit me
    → Continues limit (size me reads) continue
    → Returns limit (fill me reads continue)
unfolding fill size_of_reads
fill-Returns limit me [] continue h next = (h, tt, λ e. cc)
fill-Returns limit me (not_yet ∷ reads) continue h next = (h, tt, λ e. cc)
fill-Returns limit me (chunk [] ∷ reads) continue h next = at_eof-IsPolled limit me reads h
fill-Returns limit me (chunk (b ∷ bs) ∷ reads) continue h next =
    next (record me { buf = me.buf ++ (b ∷ bs) }) reads h
      (omega (arith, length-append me.buf (b ∷ bs)))
fill-Returns limit me (read_failed ∷ reads) continue h next = (h, tt, λ e. refl)

deliver_frame-Returns :
    (limit : ℕ) (me : NativeStream) (reads : List ReadEvent) (frame : DecodedFrame) (fed : Fed)
    (continue : NativeStream → List ReadEvent → Option Polled) (bound : ℕ)
    → IsFed limit fed
    → size me reads < bound
    → Continues limit bound continue
    → Returns limit (deliver_frame me reads frame fed continue)
unfolding deliver_frame
deliver_frame-Returns limit me reads frame (s, err e) continue bound f less next =
    ((f.0, f.1), tt, λ e. refl)
deliver_frame-Returns limit me reads frame (s, ok none) continue bound f less next =
    next (record me { reassembly = s }) reads (f.0, f.1) less
deliver_frame-Returns limit me reads frame (s, ok (some g)) continue bound f less next =
    ((f.0, f.1), f.2, λ e. cc)

next_round-Returns :
    (limit : ℕ) (me : NativeStream) (reads : List ReadEvent)
    (r : EngineResult (Option (DecodedFrame × List ℕ)))
    (continue : NativeStream → List ReadEvent → Option Polled)
    → decode_frame me.buf me.max_frame_size ≡ r
    → IsOpen limit me
    → Continues limit (size me reads) continue
    → Returns limit (next_round me reads r continue)
unfolding next_round
next_round-Returns limit me reads (err e) continue d h next = (h, tt, λ e. refl)
next_round-Returns limit me reads (ok none) continue d h next =
    fill-Returns limit me reads continue h next
next_round-Returns limit me reads (ok (some (frame, rest))) continue d h next =
    deliver_frame-Returns limit (record me { buf = rest }) reads frame (feed me.reassembly frame)
      continue (size me reads)
      (subst (λ n. IsFed n (feed me.reassembly frame)) h.0
        (feed-IsFed me.reassembly frame
          (subst (λ n. IsPartial n me.reassembly.in_progress) (sym h.0) h.1)))
      shorter next
  where
    cut : IsCutFrom me.buf me.max_frame_size frame rest
    cut = decode_frame-IsCutFrom me.buf me.max_frame_size frame rest d

    shorter : length rest + size_of_reads reads < length me.buf + size_of_reads reads
    shorter = omega (
      arith,
      cut.header_some,
      ap length cut.bytes,
      length-append cut.header (frame.payload ++ rest),
      length-append frame.payload rest,
    )

poll_loop-Returns :
    (limit fuel : ℕ) (me : NativeStream) (reads : List ReadEvent)
    → IsOpen limit me
    → size me reads < fuel
    → Returns limit (poll_loop fuel me reads)
unfolding poll_loop
poll_loop-Returns limit zero me reads h less = absurd (omega arith)
poll_loop-Returns limit (suc fuel) me reads h less = elim (Bool-cases me.done) [
  | inl e ↦ rw (e, poll_loop) (h, tt, λ _. e)
  | inr e ↦
      rw (e, poll_loop)
        (next_round-Returns limit me reads (decode_frame me.buf me.max_frame_size)
          (λ t r. poll_loop fuel t r) refl h
          (λ t r o smaller. poll_loop-Returns limit fuel t r o (omega arith)))
]

Returns-some :
    (limit : ℕ) (o : Option Polled)
    → Returns limit o
    → (p : Polled) × (o ≡ some p) × IsPolled limit p
Returns-some limit none h = absurd h
Returns-some limit (some p) h = (p, refl, h)

-- A poll of a well-formed stream ends on every run of answers of the transport: the fuel is enough.
-- It leaves a well-formed stream under the same limit, which is done where the item is an error or the
-- end. A data message among its items is within the limit, a text is valid UTF-8, and a close has a
-- valid reason and a code allowed on the wire, or is the sentinel 1005 with no reason; of a ping and
-- a pong nothing is said.
pub poll_next-IsPolled :
    (limit : ℕ) (me : NativeStream) (reads : List ReadEvent)
    → IsOpen limit me
    → (p : Polled) × (poll_next me reads ≡ some p) × IsPolled limit p
unfolding poll_next
poll_next-IsPolled limit me reads h =
    Returns-some limit _ (poll_loop-Returns limit _ me reads h (omega arith))

poll_loop-done :
    (fuel : ℕ) (me : NativeStream) (reads : List ReadEvent)
    → me.done ≡ true
    → poll_loop (suc fuel) me reads
      ≡ some (record { stream = me; reads = reads; item = ready none })
unfolding poll_loop
poll_loop-done fuel me reads h = ground arith

-- A stream that is done yields nothing more, and reads nothing.
pub poll_next-done :
    (me : NativeStream) (reads : List ReadEvent)
    → me.done ≡ true
    → poll_next me reads ≡ some (record { stream = me; reads = reads; item = ready none })
unfolding poll_next
poll_next-done me reads h = rw add-one (poll_loop-done _ me reads h)
