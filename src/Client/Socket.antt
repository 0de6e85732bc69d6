-- ===== src/Client/Socket.antt =====
-- packages/client-runtime/src/resumable-agent-socket.ts: the browser's socket, its reconnects and its
-- timers, as steps. A step runs to its end: the queues of `#enqueueApply` and `#send` hold nothing back.
pub mod Steps
pub mod Kept
pub mod Messages
pub mod Valid
use chemistry.Prelude.{
  ℕ, zero, suc, ◌+◌, String, Bool, true, false, ◌&&◌, ◌||◌, not, Option, none, some, is_none, List,
  [], ◌∷◌, ◌++◌, ◌==◌, nat_eq, string_eq, if◌then◌else◌, leb, ltb, any, filter,
}
use chemistry.Protocol.{RuntimeClientFrame, RuntimeServerFrame}
use chemistry.Protocol.Frames.{
  FrameSchema, Coded, coded, refused, decode_runtime_server_frame, encode_runtime_client_frame,
}
use chemistry.Client.{
  RuntimeConnectionStatus, RuntimeSocketSnapshot, RuntimeClientAction, RuntimeClientTransition,
  initial_runtime_socket_snapshot, apply_runtime_server_frame,
}

abbrev pub max_reconnect_attempts : ℕ
max_reconnect_attempts = 8

abbrev pub max_reconnect_delay_ms : ℕ
max_reconnect_delay_ms = 10_000

-- The socket by its number, the timers (the reconnect by the handle kept of it), and what they depend
-- on.
pub record Connection : Type 0 where
  pub socket : Option ℕ
  pub is_closed : Bool
  pub reconnect_attempt : ℕ
  pub connect_timer : Bool
  pub reconnect_timer : Option ℕ
  pub ping_timer : Bool
  pub online_listening : Bool

-- A `window.setTimeout` of `#scheduleReconnect`: its handle and its delay.
pub record ReconnectTimer : Type 0 where
  pub handle : ℕ
  pub delay : ℕ

-- The adapter, the reconnect timers that have neither fired nor been cleared (also those whose handle
-- `#reconnectTimer` no longer holds), the timers and the sockets made so far, the texts sent over the
-- sockets, and the closes asked of them.
pub record AgentSocket : Type 0 where
  pub snapshot : RuntimeSocketSnapshot
  pub connection : Connection
  pub reconnect_timers : List ReconnectTimer
  pub timers_made : ℕ
  pub made : ℕ
  pub sent : List (ℕ × String)
  pub closes : List (ℕ × ℕ × String)

-- The browser: the codecs, which sockets are open, and whether the network is there.
pub record Browser (Json : Type 0) : Type 0 where
  pub outgoing : FrameSchema RuntimeClientFrame Json
  pub incoming : FrameSchema RuntimeServerFrame Json
  pub is_open : ℕ → Bool
  pub on_line : Bool

pub data SocketEvent : Type 0 where
  connect_called connect_timer_fired ping_timer_fired close_called came_online : SocketEvent
  reconnect_timer_fired : ℕ → SocketEvent
  message_arrived : ℕ → String → SocketEvent
  socket_closed socket_failed : ℕ → SocketEvent
  submit_called : (submission_id prompt : String) → SocketEvent

unfoldable pub initial_agent_socket : AgentSocket
initial_agent_socket = record {
  snapshot = initial_runtime_socket_snapshot;
  connection = record {
    socket = none;
    is_closed = false;
    reconnect_attempt = 0;
    connect_timer = false;
    reconnect_timer = none;
    ping_timer = false;
    online_listening = false;
  };
  reconnect_timers = [];
  timers_made = 0;
  made = 0;
  sent = [];
  closes = [];
}

abbrev pub is_pending : ℕ → List ReconnectTimer → Bool
is_pending handle timers = any (λ timer. timer.handle == handle) timers

abbrev pub without_timer : ℕ → List ReconnectTimer → List ReconnectTimer
without_timer handle timers = filter (λ timer. not (timer.handle == handle)) timers

-- `if (this.#reconnectTimer !== undefined) window.clearTimeout(this.#reconnectTimer)`
abbrev pub clear_timeout : Option ℕ → List ReconnectTimer → List ReconnectTimer
clear_timeout none timers = timers
clear_timeout (some handle) timers = without_timer handle timers

-- `this.#socket === socket`
abbrev pub is_current : ℕ → Option ℕ → Bool
is_current id none = false
is_current id (some other) = other == id

abbrev pub with_status : RuntimeConnectionStatus → Option String → AgentSocket → AgentSocket
with_status status error state = record state {
  snapshot = record state.snapshot { status = status; error = error };
}

abbrev pub with_error : String → AgentSocket → AgentSocket
with_error error state = record state { snapshot = record state.snapshot { error = some error } }

-- `this.#socket?.close(code, reason)`
unfoldable pub close_socket : Option ℕ → ℕ → String → AgentSocket → AgentSocket
close_socket none code reason state = state
close_socket (some id) code reason state = record state {
  closes = state.closes ++ (id, code, reason) ∷ [];
}

-- `status === "completed" || status === "failed"`
abbrev keeps_status : RuntimeConnectionStatus → Bool
keeps_status RuntimeConnectionStatus.completed = true
keeps_status RuntimeConnectionStatus.failed = true
keeps_status _ = false

unfoldable pub fail_socket : String → AgentSocket → AgentSocket
fail_socket message state =
    let status =
      if keeps_status state.snapshot.status
      then state.snapshot.status
      else RuntimeConnectionStatus.interrupted in
    close_socket state.connection.socket 1_008 "protocol-failure"
      (with_status status (some message) state)

unfoldable pub flush : ℕ → Coded String → AgentSocket → AgentSocket
flush id (refused error) state = fail_socket error.message state
flush id (coded text) state = record state { sent = state.sent ++ (id, text) ∷ [] }

unfoldable pub send_from :
    {Json : Type 0} → Browser Json → Option ℕ → RuntimeClientFrame → AgentSocket → AgentSocket
send_from browser none frame state = state
send_from browser (some id) frame state =
    if browser.is_open id
    then flush id (encode_runtime_client_frame browser.outgoing frame) state
    else state

unfoldable pub send_frame :
    {Json : Type 0} → Browser Json → RuntimeClientFrame → AgentSocket → AgentSocket
send_frame browser frame state = send_from browser state.connection.socket frame state

unfoldable pub send_frames :
    {Json : Type 0} → Browser Json → List RuntimeClientFrame → AgentSocket → AgentSocket
send_frames browser [] state = state
send_frames browser (frame ∷ rest) state = send_frames browser rest (send_frame browser frame state)

-- `connect`
unfoldable pub connect : AgentSocket → AgentSocket
connect state =
    if not (is_none state.connection.socket) || state.connection.connect_timer
    then state
    else with_status RuntimeConnectionStatus.connecting none (record state {
      connection = record state.connection {
        is_closed = false;
        online_listening = true;
        connect_timer = true;
      };
    })

unfoldable pub make_socket : AgentSocket → AgentSocket
make_socket state =
    let fired : AgentSocket = record state {
      connection = record state.connection { connect_timer = false };
    } in
    if state.connection.is_closed || not (is_none state.connection.socket)
    then fired
    else record fired {
      connection = record fired.connection { socket = some state.made };
      made = suc state.made;
    }

unfoldable pub doubled_delay : ℕ → ℕ
doubled_delay zero = 250
doubled_delay (suc attempt) = doubled_delay attempt + doubled_delay attempt

-- `Math.min(250 * 2 ** attempt, MAX_RECONNECT_DELAY_MS)`
abbrev pub reconnect_delay : ℕ → ℕ
reconnect_delay attempt =
    let delay = doubled_delay attempt in
    if leb delay max_reconnect_delay_ms then delay else max_reconnect_delay_ms

-- The handle of a timer that still waits is overwritten, and the timer stays.
unfoldable pub schedule_reconnect : Bool → AgentSocket → AgentSocket
schedule_reconnect on_line state =
    let listening : AgentSocket = record state {
      connection = record state.connection { online_listening = true };
    } in
    let attempt = state.connection.reconnect_attempt in
    if not on_line
    then with_status RuntimeConnectionStatus.interrupted (some "Network is offline") listening
    else if leb max_reconnect_attempts attempt
    then with_status RuntimeConnectionStatus.disconnected
        (some "Reconnect budget exhausted after 8 attempts") listening
    else with_status RuntimeConnectionStatus.connecting state.snapshot.error (record listening {
      connection = record listening.connection {
        reconnect_attempt = suc attempt;
        reconnect_timer = some state.timers_made;
      };
      reconnect_timers =
          state.reconnect_timers
          ++ record { handle = state.timers_made; delay = reconnect_delay attempt } ∷ [];
      timers_made = suc state.timers_made;
    })
