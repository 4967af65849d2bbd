-- ===== src/Tests/Sockets.antt =====
-- The theorem about the websocket of a job, over a concrete websocket.
use batchiepatchie.Prelude.{ℕ, ◌≡◌, ◌≢◌, refl, none, [], inl}
use batchiepatchie.Prelude.Dict.{lookup}
use batchiepatchie.Prelude.Io.{ok, err, hang}
use batchiepatchie.Store.Subscriptions.{Hub, channels, subscribe}
use batchiepatchie.Store.Subscriptions.Registry.{HubInv, subscribe-HubInv}
use batchiepatchie.Handlers.Socket.{Server, SocketService, follow, subscribe_to_job_event}
use batchiepatchie.Handlers.Socket.Released.{IsApart, subscribe_to_job_event_lem}

abbrev no_hub : Hub
no_hub = record { subscribers = []; next_channel = 0; buffer = λ c. [] }

no_hub-HubInv : HubInv no_hub
unfolding channels lookup
no_hub-HubInv = record { given_out = λ id. tt; no_empty_key = λ id. tt }

abbrev one_watcher : Hub
one_watcher = (subscribe "a" no_hub).1

one_watcher-HubInv : HubInv one_watcher
one_watcher-HubInv = subscribe-HubInv "a" no_hub no_hub-HubInv

-- Nothing is found, and the websocket is closed at the first message.
abbrev socket : SocketService ℕ
socket = record {
  upgrade = λ w. (ok tt, w);
  close = λ w. w;
  find_one = λ id w. (err "no such job", w);
  receive = λ c w. (ok none, w);
  set_write_deadline = λ w. (ok tt, w);
  write_message = λ text w. (err "closed", w);
  marshal = λ job. inl "{}";
}

abbrev start : Server ℕ
start = record { hub = one_watcher; outside = 0 }

socket-IsApart : IsApart socket
socket-IsApart = record {
  upgrades = λ w. refl;
  closes = λ w. refl;
  finds = λ id w. refl;
  receives = λ c w. refl;
  sets = λ w. refl;
  writes = λ text w. refl;
}

socket_ends : (subscribe_to_job_event socket 2 "a" start).0 ≢ hang
unfolding subscribe_to_job_event follow
socket_ends e = cc

subscribe_to_job_event_example :
    channels "a" (subscribe_to_job_event socket 2 "a" start).1.hub ≡ channels "a" one_watcher
subscribe_to_job_event_example =
    subscribe_to_job_event_lem socket 2 "a" "a" start socket-IsApart one_watcher-HubInv socket_ends
