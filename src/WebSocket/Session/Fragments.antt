-- ===== src/WebSocket/Session/Fragments.antt =====
-- Any way to cut a message into fragments gives what the message gives in one frame.
use openwire.Base.{
  ℕ, ◌+◌, ◌≤◌, ◌≡◌, refl, ◌⊎◌, inl, inr, Bool, true, false, List, [], ◌∷◌, ◌++◌, append_assoc,
  Option, none, some, arith, ltb-false, if◌then◌else◌, length, length-append, ok, err,
}
use openwire.WebSocket.Error.{EngineResult, usize_max}
use openwire.WebSocket.Codec.{Opcode, DecodedFrame}
use openwire.WebSocket.Message.{EngineFrame}
use openwire.WebSocket.Session.{
  ReassemblyState, Fed, new, check_message_size, deliver_single, append_fragment, feed,
}

next_frame : Fed → (ReassemblyState → Fed) → Fed
next_frame (t, ok none) rest = rest t
next_frame (t, ok (some f)) rest = (t, ok (some f))
next_frame (t, err e) rest = (t, err e)

-- Frames fed one after another until one of them delivers or fails.
unfoldable pub run_frames : ReassemblyState → List DecodedFrame → Fed
unfolding next_frame
run_frames s [] = (s, ok none)
run_frames s (frame ∷ frames) = next_frame (feed s frame) (λ t. run_frames t frames)

abbrev data_frame : Bool → Opcode → List ℕ → DecodedFrame
data_frame fin opcode payload = record { fin = fin; opcode = opcode; payload = payload }

pub continuations : List ℕ → List (List ℕ) → List DecodedFrame
continuations p [] = data_frame true Opcode.continuation p ∷ []
continuations p (q ∷ qs) = data_frame false Opcode.continuation p ∷ continuations q qs

-- The frames of a message cut into `p` and the pieces behind it.
unfoldable pub fragments : Opcode → List ℕ → List (List ℕ) → List DecodedFrame
unfolding continuations
fragments opcode p [] = data_frame true opcode p ∷ []
fragments opcode p (q ∷ qs) = data_frame false opcode p ∷ continuations q qs

unfoldable pub joined : List ℕ → List (List ℕ) → List ℕ
joined p [] = p
joined p (q ∷ qs) = p ++ joined q qs

-- A state with the start of a message.
abbrev partial : ℕ → Opcode → List ℕ → ReassemblyState
partial limit opcode buffer = record {
  max_message_size = limit;
  in_progress = some (record { opcode = opcode; buffer = buffer });
}

abbrev empty : ℕ → ReassemblyState
empty limit = record { max_message_size = limit; in_progress = none }

feed_continuation :
    (limit : ℕ) (opcode : Opcode) (buffer p : List ℕ) (fin : Bool)
    → length buffer + length p ≤ limit
    → limit ≤ usize_max
    → feed (partial limit opcode buffer) (data_frame fin Opcode.continuation p) ≡ (
        if fin
        then (empty limit, deliver_single limit opcode (buffer ++ p))
        else (partial limit opcode (buffer ++ p), ok none))
unfolding feed
feed_continuation limit opcode buffer p fin small machine =
    rw (ltb-false usize_max (length buffer + length p) (omega arith))
      (rw (ltb-false limit (length buffer + length p) small, append_fragment, check_message_size))

deliver_done :
    (t : ReassemblyState) (r : EngineResult (Option EngineFrame))
    → next_frame (t, r) (λ u. (u, ok none)) ≡ (t, r)
unfolding next_frame
deliver_done t (ok none) = refl
deliver_done t (ok (some f)) = refl
deliver_done t (err e) = refl

run_frames-continuations :
    (limit : ℕ) (opcode : Opcode) (buffer p : List ℕ) (ps : List (List ℕ))
    → length buffer + length (joined p ps) ≤ limit
    → limit ≤ usize_max
    → run_frames (partial limit opcode buffer) (continuations p ps)
      ≡ (empty limit, deliver_single limit opcode (buffer ++ joined p ps))
unfolding run_frames continuations joined
run_frames-continuations limit opcode buffer p [] small machine =
    rw (feed_continuation limit opcode buffer p true small machine) (deliver_done _ _)
run_frames-continuations limit opcode buffer p (q ∷ qs) small machine =
    let fits : length buffer + length p + length (joined q qs) ≤ limit =
      omega (arith, length-append p (joined q qs)) in
    rw (feed_continuation limit opcode buffer p false (omega arith) machine, ← append_assoc)
      (run_frames-continuations limit opcode (buffer ++ p) q qs
        (omega (arith, length-append buffer p)) machine)

feed_first :
    (limit : ℕ) (opcode : Opcode) (p : List ℕ) (fin : Bool)
    → (opcode ≡ Opcode.text) ⊎ (opcode ≡ Opcode.binary)
    → length p ≤ limit
    → feed (empty limit) (data_frame fin opcode p) ≡ (
        if fin
        then (empty limit, deliver_single limit opcode p)
        else (partial limit opcode p, ok none))
unfolding feed
feed_first limit opcode p true (inl e) small = rw e
feed_first limit opcode p true (inr e) small = rw e
feed_first limit opcode p false (inl e) small = rw (e, ltb-false limit (length p) small)
feed_first limit opcode p false (inr e) small = rw (e, ltb-false limit (length p) small)

-- A data message within the limit, cut anywhere, is delivered as it is from a single frame, and no
-- part of it stays behind.
pub run_frames-fragments :
    (limit : ℕ) (opcode : Opcode) (p : List ℕ) (ps : List (List ℕ))
    → (opcode ≡ Opcode.text) ⊎ (opcode ≡ Opcode.binary)
    → length (joined p ps) ≤ limit
    → limit ≤ usize_max
    → run_frames (new limit) (fragments opcode p ps)
      ≡ (new limit, deliver_single limit opcode (joined p ps))
unfolding run_frames fragments joined new
run_frames-fragments limit opcode p [] kind small machine =
    rw (feed_first limit opcode p true kind small) (deliver_done _ _)
run_frames-fragments limit opcode p (q ∷ qs) kind small machine =
    let fits : length p + length (joined q qs) ≤ limit =
      omega (arith, length-append p (joined q qs)) in
    rw (feed_first limit opcode p false kind (omega arith))
      (run_frames-continuations limit opcode p q qs fits machine)
