-- ===== src/Adapter/Broadcast/Isolation.antt =====
-- Whom a broadcast of apps/backend/src/runtime-websocket-adapter.ts reaches.
use chemistry.Prelude.{
  String, Bool, true, false, Option, none, some, List, [], ◌∷◌, filter, not, ◌==◌, string_eq, ◌≡◌,
  refl, ap, arith, Option-cases, Bool-cases, inl, inr,
}
use chemistry.Protocol.{DurableStreamEvent, RuntimeServerFrame}
use chemistry.Handoff.{ReplayHandoff, park_live_event}
use chemistry.Adapter.Sockets.{Socket, AdapterState, with_durable_event}
use chemistry.Adapter.Broadcast.{
  Gates, event_gated, frame_for, broadcast_to, broadcast_one, broadcast_over, broadcast,
}

-- The socket is attached to the session.
abbrev pub attached_to : String → Socket → Bool
attached_to session_id socket = elim socket.attachment [
  | none ↦ false
  | some attachment ↦ attachment.session_id == session_id
]

-- A socket of another session.
broadcast_one-other :
    (session_id : String) (frame : RuntimeServerFrame) (socket : Socket) (gates : Gates)
    → attached_to session_id socket ≡ false
    → broadcast_one session_id frame socket gates ≡ (socket, gates)
unfolding broadcast_one broadcast_to
broadcast_one-other session_id frame socket gates h = ground (arith, h)

-- A socket of the session is of the session afterwards.
event_attached :
    (event : DurableStreamEvent) (socket : Socket) (session_id id : String) (gates : Gates)
    (gate : Option ReplayHandoff)
    → attached_to session_id socket ≡ true
    → attached_to session_id (event_gated event socket id gates gate).0 ≡ true
unfolding event_gated with_durable_event park_live_event
event_attached event socket session_id id gates none h = ground (arith, h)
event_attached event socket session_id id gates (some gate) h = ground (arith, h)

frame_attached :
    (frame : RuntimeServerFrame) (socket : Socket) (session_id id : String) (gates : Gates)
    → attached_to session_id socket ≡ true
    → attached_to session_id (frame_for frame socket id gates).0 ≡ true
unfolding frame_for
frame_attached (RuntimeServerFrame.stream_event event replay) socket session_id id gates h =
    event_attached event socket session_id id gates (gates id) h
frame_attached (RuntimeServerFrame.stream_terminal terminal) socket session_id id gates h =
    ground (arith, h)
frame_attached (RuntimeServerFrame.resume_probe probe) socket session_id id gates h = h
frame_attached (RuntimeServerFrame.turn_accepted accepted) socket session_id id gates h = h
frame_attached (RuntimeServerFrame.resume_complete stream through) socket session_id id gates h = h
frame_attached (RuntimeServerFrame.recovering operation) socket session_id id gates h = h
frame_attached (RuntimeServerFrame.protocol_error code message recoverable) socket session_id id
      gates h =
    h
frame_attached (RuntimeServerFrame.pong nonce boot) socket session_id id gates h = h
frame_attached RuntimeServerFrame.keep_alive_ack socket session_id id gates h = h

broadcast_one-attached :
    (session_id : String) (frame : RuntimeServerFrame) (socket : Socket) (gates : Gates)
    → attached_to session_id socket ≡ true
    → attached_to session_id (broadcast_one session_id frame socket gates).0 ≡ true
unfolding broadcast_one broadcast_to
broadcast_one-attached session_id frame socket gates h = elim (Option-cases socket.attachment) [
  | inl undecoded ↦ absurd (ground (arith, h, undecoded))
  | inr (attachment, decoded) ↦
      ground
        (arith, h, decoded, frame_attached frame socket session_id attachment.connection_id gates h)
]

abbrev pub others : String → List Socket → List Socket
others session_id sockets = filter (λ socket. not (attached_to session_id socket)) sockets

broadcast_over-others :
    (session_id : String) (frame : RuntimeServerFrame) (sockets : List Socket) (gates : Gates)
    → others session_id (broadcast_over session_id frame sockets gates).0
      ≡ others session_id sockets
unfolding broadcast_over
broadcast_over-others session_id frame [] gates = refl
broadcast_over-others session_id frame (socket ∷ rest) gates =
    elim (Bool-cases (attached_to session_id socket)) [
      | inl own ↦
          rw (own, broadcast_one-attached session_id frame socket gates own)
            (broadcast_over-others session_id frame rest
              (broadcast_one session_id frame socket gates).1)
      | inr other ↦
          rw (broadcast_one-other session_id frame socket gates other, other)
            (ap (λ rest. socket ∷ rest) (broadcast_over-others session_id frame rest gates))
    ]

-- A broadcast to a session leaves the sockets of the other sessions, and those without a readable
-- attachment, as they were and in their order, and makes no socket leave the session or join it.
pub broadcast-others :
    (session_id : String) (frame : RuntimeServerFrame) (state : AdapterState)
    → others session_id (broadcast session_id frame state).sockets ≡ others session_id state.sockets
unfolding broadcast
broadcast-others session_id frame state =
    broadcast_over-others session_id frame state.sockets state.replay_gates
