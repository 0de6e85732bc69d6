-- ===== src/Client/Socket/Messages.antt =====
-- The connection of packages/client-runtime/src/resumable-agent-socket.ts after a message.
use chemistry.Prelude.{
  ℕ, String, Bool, true, false, ◌||◌, not, none, is_none, ◌==◌, string_eq, nat_eq, ◌≤◌, leb, ◌≡◌,
  sym, arith, Bool-cases, inl, inr, subst,
}
use chemistry.Protocol.{RuntimeServerFrame}
use chemistry.Protocol.Frames.{Coded, coded, refused, decode_runtime_server_frame}
use chemistry.Client.{apply_runtime_server_frame}
use chemistry.Client.Socket.{
  Connection, AgentSocket, Browser, max_reconnect_attempts, is_current, send_frames, connect,
  schedule_reconnect,
}
use chemistry.Client.Socket.Steps.{resume_completed, accept_frame, handle_coded, handle_message}
use chemistry.Client.Socket.Kept.{act_keeps, fail_socket_keeps, send_frames_keeps}

-- The reconnects are bounded, and a closed adapter keeps no socket and no handle of a timer, and does
-- not listen for the network.
pub record ConnectionIsValid (connection : Connection) : Type 0 where
  pub within : connection.reconnect_attempt ≤ max_reconnect_attempts
  pub silent :
      connection.is_closed ≡ true
      → (connection.socket ≡ none)
        × (connection.connect_timer ≡ false)
        × (connection.reconnect_timer ≡ none)
        × (connection.ping_timer ≡ false)
        × (connection.online_listening ≡ false)

-- A connection that has not been closed.
abbrev pub IsOpenValid : Connection → Type 0
IsOpenValid connection = ConnectionIsValid connection × (connection.is_closed ≡ false)

resume_completed-Valid :
    (frame : RuntimeServerFrame) (state : AgentSocket)
    → IsOpenValid state.connection
    → ConnectionIsValid (resume_completed frame state).connection
unfolding resume_completed
resume_completed-Valid (RuntimeServerFrame.resume_complete stream through) state h = record {
  within = omega arith;
  silent = λ shut. absurd (ground (arith, shut, h.1));
}
resume_completed-Valid (RuntimeServerFrame.stream_event event replay) state h = h.0
resume_completed-Valid (RuntimeServerFrame.stream_terminal terminal) state h = h.0
resume_completed-Valid (RuntimeServerFrame.resume_probe probe) state h = h.0
resume_completed-Valid (RuntimeServerFrame.turn_accepted accepted) state h = h.0
resume_completed-Valid (RuntimeServerFrame.recovering operation) state h = h.0
resume_completed-Valid (RuntimeServerFrame.protocol_error code message recoverable) state h = h.0
resume_completed-Valid (RuntimeServerFrame.pong nonce boot) state h = h.0
resume_completed-Valid RuntimeServerFrame.keep_alive_ack state h = h.0

pub connect-Valid :
    (state : AgentSocket)
    → ConnectionIsValid state.connection
    → ConnectionIsValid (connect state).connection
unfolding connect
connect-Valid state h =
    elim (Bool-cases (not (is_none state.connection.socket) || state.connection.connect_timer)) [
      | inl there ↦ rw there h
      | inr free ↦
          rw free (record { within = h.within; silent = λ shut. absurd (ground (arith, shut)) })
    ]

pub schedule_reconnect-Valid :
    (on_line : Bool) (state : AgentSocket)
    → IsOpenValid state.connection
    → ConnectionIsValid (schedule_reconnect on_line state).connection
unfolding schedule_reconnect
schedule_reconnect-Valid false state h = record {
  within = h.0.within;
  silent = λ shut. absurd (ground (arith, shut, h.1));
}
schedule_reconnect-Valid true state h =
    elim (Bool-cases (leb max_reconnect_attempts state.connection.reconnect_attempt)) [
      | inl over ↦
          rw over
            (record { within = h.0.within; silent = λ shut. absurd (ground (arith, shut, h.1)) })
      | inr room ↦ rw room (record {
        within = ground (arith, room);
        silent = λ shut. absurd (ground (arith, shut, h.1));
      })
    ]

pub current_open :
    (id : ℕ) (connection : Connection)
    → ConnectionIsValid connection
    → is_current id connection.socket ≡ true
    → connection.is_closed ≡ false
current_open id connection h current = elim (Bool-cases connection.is_closed) [
  | inl shut ↦ absurd (ground (arith, current, (h.silent shut).0))
  | inr running ↦ running
]

-- The same connection, whatever else has changed.
pub same-Valid :
    {connection other : Connection}
    → other ≡ connection
    → ConnectionIsValid connection
    → ConnectionIsValid other
same-Valid same h = subst ConnectionIsValid (sym same) h

module _ {Json : Type 0} (browser : Browser Json) where
  accept_frame-Valid :
      (frame : RuntimeServerFrame) (state : AgentSocket)
      → IsOpenValid state.connection
      → ConnectionIsValid (accept_frame browser frame state).connection
  unfolding accept_frame
  accept_frame-Valid frame state h =
      let transition = apply_runtime_server_frame state.snapshot frame in
      let read : AgentSocket = record state { snapshot = transition.snapshot } in
      let told = send_frames browser transition.outbound read in
      same-Valid (act_keeps transition.action (resume_completed frame told)) (
        resume_completed-Valid frame told
          (subst IsOpenValid (sym (send_frames_keeps browser transition.outbound read)) h))

  handle_coded-Valid :
      (frame : Coded RuntimeServerFrame) (state : AgentSocket)
      → IsOpenValid state.connection
      → ConnectionIsValid (handle_coded browser frame state).connection
  unfolding handle_coded
  handle_coded-Valid (refused error) state h =
      same-Valid (fail_socket_keeps error.message state) h.0
  handle_coded-Valid (coded frame) state h = accept_frame-Valid frame state h

  pub handle_message-Valid :
      (id : ℕ) (encoded : String) (state : AgentSocket)
      → ConnectionIsValid state.connection
      → ConnectionIsValid (handle_message browser id encoded state).connection
  unfolding handle_message
  handle_message-Valid id encoded state h =
      elim (Bool-cases (is_current id state.connection.socket)) [
        | inr stale ↦ rw stale h
        | inl current ↦ elim (Bool-cases (encoded == "")) [
          | inl empty ↦ rw (current, empty) h
          | inr full ↦
              rw (current, full)
                (handle_coded-Valid (decode_runtime_server_frame browser.incoming encoded) state
                  (h, current_open id state.connection h current))
        ]
      ]
