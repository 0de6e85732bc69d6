-- ===== src/Client/Socket/Kept.antt =====
-- What leaves the connection of packages/client-runtime/src/resumable-agent-socket.ts as it is.
use chemistry.Prelude.{
  ℕ, String, Option, none, some, List, [], ◌∷◌, string_eq, nat_eq, ◌≡◌, refl, ◌∙◌, Bool-cases, inl,
  inr,
}
use chemistry.Protocol.{RuntimeClientFrame}
use chemistry.Protocol.Frames.{Coded, coded, refused, encode_runtime_client_frame}
use chemistry.Client.{RuntimeClientAction}
use chemistry.Client.Socket.{
  AgentSocket, Browser, close_socket, fail_socket, flush, send_from, send_frame, send_frames,
}
use chemistry.Client.Socket.Steps.{act, submit_from}

pub close_socket_keeps :
    (id : Option ℕ) (code : ℕ) (reason : String) (state : AgentSocket)
    → (close_socket id code reason state).connection ≡ state.connection
unfolding close_socket
close_socket_keeps none code reason state = refl
close_socket_keeps (some id) code reason state = refl

pub fail_socket_keeps :
    (message : String) (state : AgentSocket)
    → (fail_socket message state).connection ≡ state.connection
unfolding fail_socket
fail_socket_keeps message state =
    close_socket_keeps state.connection.socket 1_008 "protocol-failure" _

pub flush_keeps :
    (id : ℕ) (encoded : Coded String) (state : AgentSocket)
    → (flush id encoded state).connection ≡ state.connection
unfolding flush
flush_keeps id (refused error) state = fail_socket_keeps error.message state
flush_keeps id (coded text) state = refl

module _ {Json : Type 0} (browser : Browser Json) where
  pub send_from_keeps :
      (id : Option ℕ) (frame : RuntimeClientFrame) (state : AgentSocket)
      → (send_from browser id frame state).connection ≡ state.connection
  unfolding send_from
  send_from_keeps none frame state = refl
  send_from_keeps (some id) frame state = elim (Bool-cases (browser.is_open id)) [
    | inl ready ↦
        rw ready (flush_keeps id (encode_runtime_client_frame browser.outgoing frame) state)
    | inr shut ↦ rw shut refl
  ]

  pub send_frame_keeps :
      (frame : RuntimeClientFrame) (state : AgentSocket)
      → (send_frame browser frame state).connection ≡ state.connection
  unfolding send_frame
  send_frame_keeps frame state = send_from_keeps state.connection.socket frame state

  pub send_frames_keeps :
      (frames : List RuntimeClientFrame) (state : AgentSocket)
      → (send_frames browser frames state).connection ≡ state.connection
  unfolding send_frames
  send_frames_keeps [] state = refl
  send_frames_keeps (frame ∷ rest) state =
      send_frames_keeps rest (send_frame browser frame state) ∙ send_frame_keeps frame state

  pub submit_from_keeps :
      (frame : RuntimeClientFrame) (id : Option ℕ) (state : AgentSocket)
      → (submit_from browser frame id state).connection ≡ state.connection
  unfolding submit_from
  submit_from_keeps frame none state = refl
  submit_from_keeps frame (some id) state = elim (Bool-cases (browser.is_open id)) [
    | inl ready ↦ rw ready (send_frame_keeps frame state)
    | inr shut ↦ rw shut refl
  ]

pub act_keeps :
    (action : RuntimeClientAction) (state : AgentSocket)
    → (act action state).connection ≡ state.connection
unfolding act
act_keeps RuntimeClientAction.nothing state = refl
act_keeps RuntimeClientAction.reconnect state = close_socket_keeps state.connection.socket _ _ state
act_keeps RuntimeClientAction.close state = close_socket_keeps state.connection.socket _ _ state
