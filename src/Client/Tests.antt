-- ===== src/Client/Tests.antt =====
-- The client on small runs.
use tele.Prelude.{◌*◌, ◌^◌, min, ◌≡◌, refl, some, List, [], ◌∷◌, arith}
use tele.Bytes.{Bytes}
use tele.Client.Receive.{accepted, from_peer, Session, binary}
use tele.Client.{reconnect_max_ms, Client, new_client, force_reconnect}
use tele.Client.Step.{Event, opened, closed, received, do_connect, step, run}
use tele.Client.Invariant.{Inv, reachable-Inv}
use tele.Client.Backoff.{failed_attempts, IsWaiting, backoff_doubles}
use tele.Client.Sockets.{SameView, force_reconnect_silences}

abbrev id_8 : Bytes
id_8 = 1 ∷ 2 ∷ 3 ∷ 4 ∷ 5 ∷ 6 ∷ 7 ∷ 8 ∷ []

-- A server that accepts every handshake and sends one kind of frame.
abbrev friendly : Session
friendly = record {
  finish_handshake = λ _. accepted 120;
  parse_incoming = λ _. from_peer id_8 5 [];
}

abbrev lost_connection : List Event
lost_connection = do_connect ∷ opened 0 ∷ received 0 5 (binary []) ∷ closed 0 ∷ []

-- After a connection that was established and lost.
abbrev waiting_client : Client
waiting_client = run friendly lost_connection new_client

reachable-Inv_example : Inv waiting_client
reachable-Inv_example = reachable-Inv friendly lost_connection

waiting_client-IsWaiting : IsWaiting waiting_client
unfolding run step new_client
waiting_client-IsWaiting = ground arith

backoff_doubles_example :
    (failed_attempts friendly 4 waiting_client).reconnect_timer
    ≡ some (min (waiting_client.reconnect_ms * 2 ^ 4) reconnect_max_ms)
backoff_doubles_example = backoff_doubles friendly 4 waiting_client waiting_client-IsWaiting

abbrev open_client : Client
open_client = run friendly (do_connect ∷ opened 0 ∷ []) new_client

open_client-Inv : Inv open_client
open_client-Inv = reachable-Inv friendly (do_connect ∷ opened 0 ∷ [])

open_client-ws : open_client.ws ≡ some 0
unfolding run step new_client
open_client-ws = refl

force_reconnect_silences_example :
    let d = run friendly (opened 1 ∷ []) (force_reconnect open_client) in
    SameView (step friendly (closed 0) d) d
force_reconnect_silences_example =
    force_reconnect_silences friendly (opened 1 ∷ []) (closed 0) 0 open_client open_client-Inv
      open_client-ws refl
