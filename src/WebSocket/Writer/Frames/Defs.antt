-- ===== src/WebSocket/Writer/Frames/Defs.antt =====
-- What the frames that a session hands to its engine owe to the data lane, and where the close
-- frame stands among them. Frames are kept with the latest first.
use openwire.Base.{
  ℕ, ◌+◌, ◌≡◌, refl, ap, ◌∙◌, Bool, true, false, not, ◌&&◌, List, [], ◌∷◌, ◌++◌, append_assoc, all,
  arith, if◌then◌else◌,
}
use openwire.WebSocket.Message.{EngineFrame, Message, to_engine_frame}
use openwire.WebSocket.Writer.State.{Session, Writer, Resume}

abbrev pub is_close : EngineFrame → Bool
is_close (EngineFrame.close code reason) = true
is_close _ = false

abbrev pub is_data : EngineFrame → Bool
is_data (EngineFrame.text s) = true
is_data (EngineFrame.binary b) = true
is_data _ = false

abbrev pub is_plain : Message → Bool
is_plain (Message.close code reason) = false
is_plain _ = true

abbrev pub closes : List EngineFrame → ℕ
closes [] = 0
closes (f ∷ frames) = (if is_close f then 1 else 0) + closes frames

-- All but the latest frame.
abbrev pub earlier : List EngineFrame → List EngineFrame
earlier [] = []
earlier (f ∷ frames) = frames

-- The text and binary frames.
unfoldable pub data_of : List EngineFrame → List EngineFrame
data_of [] = []
data_of (f ∷ frames) = if is_data f then f ∷ data_of frames else data_of frames

-- The frames of the messages of a lane, the last message first.
unfoldable pub queued : List Message → List EngineFrame
unfolding to_engine_frame
queued [] = []
queued (m ∷ lane) = queued lane ++ (to_engine_frame m ∷ [])

-- The writer may still hand over a frame, the frame of the data lane that it is about to hand
-- over, whether no message is thrown away where it waits, and what it may be sending.
abbrev pub may_send : Writer → Bool
may_send (Writer.flushing next) = false
may_send (Writer.lingering code reason) = false
may_send (Writer.reporting error acknowledge) = false
may_send Writer.stopped = false
may_send _ = true

abbrev pub sending : Writer → List EngineFrame
sending (Writer.sending_data frame resume) = frame ∷ []
sending _ = []

abbrev pub delivers : Writer → Bool
delivers (Writer.lingering code reason) = false
delivers (Writer.reporting error acknowledge) = false
delivers Writer.stopped = false
delivers _ = true

abbrev pub is_proper : Writer → Bool
is_proper (Writer.sending_data frame resume) = not (is_close frame)
is_proper (Writer.sending_control frame) = not (is_close frame) && not (is_data frame)
is_proper (Writer.sending_close frame next) = is_close frame
is_proper _ = true

abbrev pub When : Bool → Type 0 → Type 0
When true P = P
When false P = Unit {0}

pub When-elim : {P : Type 0} (b : Bool) → b ≡ true → When b P → P
When-elim true e p = p
When-elim false e p = cc

pub When-map : {P Q : Type 0} (b : Bool) → (P → Q) → When b P → When b Q
When-map true f p = f p
When-map false f p = tt

pub When-none : (P : Type 0) (b : Bool) → When (b && false) P
When-none P true = tt
When-none P false = tt

pub record IsFramed (at : Writer) (frames : List EngineFrame) (lane waiting : List Message)
    (accepted : List EngineFrame) (remote_close : Bool) : Type 0 where
  pub unclosed : When (may_send at) (closes frames ≡ 0)
  pub last : closes (earlier frames) ≡ 0
  pub proper : is_proper at ≡ true
  pub plain_lane : all is_plain lane ≡ true
  pub plain_waiting : all is_plain waiting ≡ true
  pub kept :
      When
        (delivers at && not remote_close)
        (data_of accepted ≡ data_of (queued lane) ++ (data_of (sending at) ++ data_of frames))

-- Of a session whose writer stands `at` a wait.
abbrev pub FramedAt : Writer → Session → Type 0
FramedAt at w = IsFramed at w.frames w.lane w.waiting w.accepted w.session.remote_close_started

abbrev pub Framed : Session → Type 0
Framed w = FramedAt w.writer w

pub data_of-append : (xs ys : List EngineFrame) → data_of (xs ++ ys) ≡ data_of xs ++ data_of ys
unfolding data_of
data_of-append [] ys = refl
data_of-append (x ∷ xs) ys = ground (arith, data_of-append xs ys)

pub queued-append :
    (lane : List Message) (m : Message)
    → queued (lane ++ (m ∷ [])) ≡ to_engine_frame m ∷ queued lane
unfolding queued
queued-append [] m = refl
queued-append (x ∷ lane) m = rw (queued-append lane m)

pub all-append_one :
    (lane : List Message) (m : Message)
    → all is_plain lane ≡ true
    → is_plain m ≡ true
    → all is_plain (lane ++ (m ∷ [])) ≡ true
all-append_one [] m h p = ground arith
all-append_one (x ∷ lane) m h p = ground (arith, all-append_one lane m)

pub to_engine_frame-plain : (m : Message) → is_plain m ≡ true → is_close (to_engine_frame m) ≡ false
unfolding to_engine_frame
to_engine_frame-plain (Message.text s) h = refl
to_engine_frame-plain (Message.binary b) h = refl
to_engine_frame-plain (Message.ping b) h = refl
to_engine_frame-plain (Message.pong b) h = refl
to_engine_frame-plain (Message.close code reason) h = cc

-- A message leaves the lane for the sink; with the peer's close it is thrown away.
module _ {frames accepted : List EngineFrame} {waiting : List Message} (m : Message)
    (rest : List Message) where
  pub take-IsFramed :
      (remote : Bool) (resume : Resume)
      → remote ≡ false
      → IsFramed Writer.selecting frames (m ∷ rest) waiting accepted remote
      → IsFramed
          (Writer.sending_data (to_engine_frame m) resume)
          frames
          rest
          waiting
          accepted
          remote
  unfolding queued data_of
  take-IsFramed true resume e f = cc
  take-IsFramed false resume e f =
      let plain : is_plain m ≡ true = ground arith in
      record {
        unclosed = f.unclosed;
        last = f.last;
        proper = rw (to_engine_frame-plain m plain);
        plain_lane = ground arith;
        plain_waiting = f.plain_waiting;
        kept =
            f.kept
            ∙ ap (λ ys. ys ++ data_of frames)
                (data_of-append (queued rest) (to_engine_frame m ∷ []))
            ∙ append_assoc (data_of (queued rest)) (data_of (to_engine_frame m ∷ []))
                (data_of frames);
      }

  pub drop-IsFramed :
      (remote : Bool)
      → remote ≡ true
      → IsFramed Writer.selecting frames (m ∷ rest) waiting accepted remote
      → IsFramed Writer.selecting frames rest waiting accepted remote
  drop-IsFramed true e f = ground arith
  drop-IsFramed false e f = cc
