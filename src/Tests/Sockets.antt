-- ===== src/Tests/Sockets.antt =====
-- A browser that connects, loses its socket, connects again before the reconnect, loses that socket
-- too and closes; then the first reconnect timer fires.
use chemistry.Prelude.{◌≡◌, refl, take, true, none, [], ◌∷◌, nat_eq}
use chemistry.Client.Socket.{
  Browser, SocketEvent, initial_agent_socket, is_pending, connect, make_socket, schedule_reconnect,
  close_socket, doubled_delay,
}
use chemistry.Client.Socket.Steps.{run_steps, step, handle_close, reconnect_unless_closed, close}
use chemistry.Prelude.{String, List}

abbrev browser : Browser String
browser = record {
  outgoing = record {
    encode_value = λ frame. none;
    decode_value = λ text. none;
    stringify = λ text. text;
    parse = λ text. none;
    byte_length = λ text. 20;
  };
  incoming = record {
    encode_value = λ frame. none;
    decode_value = λ text. none;
    stringify = λ text. text;
    parse = λ text. none;
    byte_length = λ text. 20;
  };
  is_open = λ id. true;
  on_line = true;
}

abbrev steps : List (Browser String × SocketEvent)
steps =
    (browser, SocketEvent.connect_called)
    ∷ (browser, SocketEvent.connect_timer_fired)
    ∷ (browser, SocketEvent.socket_closed 0)
    ∷ (browser, SocketEvent.connect_called)
    ∷ (browser, SocketEvent.connect_timer_fired)
    ∷ (browser, SocketEvent.socket_closed 1)
    ∷ (browser, SocketEvent.close_called)
    ∷ (browser, SocketEvent.reconnect_timer_fired 0)
    ∷ []

-- The timer whose handle was overwritten is still pending after the close.
close_leaves_timer :
    is_pending 0 (run_steps (take 7 steps) initial_agent_socket).reconnect_timers ≡ true
unfolding run_steps step connect make_socket handle_close reconnect_unless_closed schedule_reconnect
    close close_socket initial_agent_socket doubled_delay
close_leaves_timer = refl
