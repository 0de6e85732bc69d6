-- ===== src/Client/Socket/Steps.antt =====
-- The listeners, timers and methods of packages/client-runtime/src/resumable-agent-socket.ts.
use chemistry.Prelude.{
  ℕ, String, Bool, true, false, ◌&&◌, not, Option, none, some, List, [], ◌∷◌, ◌==◌, string_eq,
  if◌then◌else◌,
}
use chemistry.Protocol.{RuntimeClientFrame, RuntimeServerFrame}
use chemistry.Protocol.Frames.{Coded, coded, refused, decode_runtime_server_frame}
use chemistry.Client.{RuntimeConnectionStatus, RuntimeClientAction, apply_runtime_server_frame}
use chemistry.Client.Socket.{
  Connection, AgentSocket, Browser, SocketEvent, is_pending, without_timer, clear_timeout,
  is_current, with_status, with_error, close_socket, fail_socket, send_frame, send_frames, connect,
  make_socket, schedule_reconnect,
}

abbrev pub change_connection : (Connection → Connection) → AgentSocket → AgentSocket
change_connection change state = record state { connection = change state.connection }

-- `ResumeComplete` ends the reconnects and starts the pings.
unfoldable pub resume_completed : RuntimeServerFrame → AgentSocket → AgentSocket
resume_completed (RuntimeServerFrame.resume_complete stream_id through) state =
    change_connection
      (λ (connection : Connection). record connection { reconnect_attempt = 0; ping_timer = true })
      state
resume_completed _ state = state

unfoldable pub act : RuntimeClientAction → AgentSocket → AgentSocket
act RuntimeClientAction.nothing state = state
act RuntimeClientAction.reconnect state =
    close_socket state.connection.socket 1_012 "sequence-gap" state
act RuntimeClientAction.close state =
    close_socket state.connection.socket 1_008 "protocol-failure" state

unfoldable pub accept_frame :
    {Json : Type 0} → Browser Json → RuntimeServerFrame → AgentSocket → AgentSocket
accept_frame browser frame state =
    let transition = apply_runtime_server_frame state.snapshot frame in
    act transition.action (
      resume_completed frame
        (send_frames browser transition.outbound (record state { snapshot = transition.snapshot })))

unfoldable pub handle_coded :
    {Json : Type 0} → Browser Json → Coded RuntimeServerFrame → AgentSocket → AgentSocket
handle_coded browser (refused error) state = fail_socket error.message state
handle_coded browser (coded frame) state = accept_frame browser frame state

-- An empty text is not read.
unfoldable pub handle_message :
    {Json : Type 0} → Browser Json → ℕ → String → AgentSocket → AgentSocket
handle_message browser id encoded state =
    if is_current id state.connection.socket && not (encoded == "")
    then handle_coded browser (decode_runtime_server_frame browser.incoming encoded) state
    else state

unfoldable pub reconnect_unless_closed : Bool → Bool → AgentSocket → AgentSocket
reconnect_unless_closed true on_line state = state
reconnect_unless_closed false on_line state = schedule_reconnect on_line state

unfoldable pub handle_close : Bool → ℕ → AgentSocket → AgentSocket
handle_close on_line id state =
    if is_current id state.connection.socket
    then reconnect_unless_closed state.connection.is_closed on_line (
        change_connection
          (λ (connection : Connection). record connection { socket = none; ping_timer = false })
          state)
    else state

unfoldable pub handle_error : ℕ → AgentSocket → AgentSocket
handle_error id state =
    if is_current id state.connection.socket
    then with_error "WebSocket transport error" state
    else state

unfoldable pub submit_from :
    {Json : Type 0} → Browser Json → RuntimeClientFrame → Option ℕ → AgentSocket → AgentSocket
submit_from browser frame none state = with_error "Runtime connection is not open" state
submit_from browser frame (some id) state =
    if browser.is_open id
    then send_frame browser frame state
    else with_error "Runtime connection is not open" state

-- `close`
unfoldable pub close : AgentSocket → AgentSocket
close state = with_status RuntimeConnectionStatus.disconnected state.snapshot.error (
    close_socket state.connection.socket 1_000 "session-changed" (record state {
      connection = record {
        socket = none;
        is_closed = true;
        reconnect_attempt = 0;
        connect_timer = false;
        reconnect_timer = none;
        ping_timer = false;
        online_listening = false;
      };
      reconnect_timers = clear_timeout state.connection.reconnect_timer state.reconnect_timers;
    }))

-- The handle is forgotten, whichever timer it is of.
unfoldable pub reconnect_fired : ℕ → AgentSocket → AgentSocket
reconnect_fired handle state =
    let fired : AgentSocket = record state {
      connection = record state.connection { reconnect_timer = none };
      reconnect_timers = without_timer handle state.reconnect_timers;
    } in
    if state.connection.is_closed then fired else connect fired

-- `#onOnline`; `connect` does nothing while a socket or its timer is there.
unfoldable pub on_online : AgentSocket → AgentSocket
on_online state =
    if state.connection.is_closed
    then state
    else connect (record state {
      connection = record state.connection { reconnect_attempt = 0; reconnect_timer = none };
      reconnect_timers = clear_timeout state.connection.reconnect_timer state.reconnect_timers;
    })

-- A timer fires only while it is pending, and a listener hears only while it is set.
unfoldable pub step : {Json : Type 0} → Browser Json → SocketEvent → AgentSocket → AgentSocket
step browser SocketEvent.connect_called state = connect state
step browser SocketEvent.connect_timer_fired state =
    if state.connection.connect_timer then make_socket state else state
step browser (SocketEvent.reconnect_timer_fired handle) state =
    if is_pending handle state.reconnect_timers then reconnect_fired handle state else state
step browser SocketEvent.ping_timer_fired state =
    if state.connection.ping_timer
    then send_frame browser RuntimeClientFrame.keep_alive state
    else state
step browser SocketEvent.close_called state = close state
step browser SocketEvent.came_online state =
    if state.connection.online_listening then on_online state else state
step browser (SocketEvent.message_arrived id encoded) state =
    handle_message browser id encoded state
step browser (SocketEvent.socket_closed id) state = handle_close browser.on_line id state
step browser (SocketEvent.socket_failed id) state = handle_error id state
step browser (SocketEvent.submit_called submission_id prompt) state =
    submit_from browser (RuntimeClientFrame.submit_turn submission_id prompt)
      state.connection.socket state

-- The states of an adapter, whatever the browser is like at each step.
unfoldable pub run_steps :
    {Json : Type 0} → List (Browser Json × SocketEvent) → AgentSocket → AgentSocket
run_steps [] state = state
run_steps ((browser, event) ∷ rest) state = run_steps rest (step browser event state)
