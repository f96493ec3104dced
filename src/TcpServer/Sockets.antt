-- ===== src/TcpServer/Sockets.antt =====
-- What `poll` makes of the two lists of sockets.
use trading_ecosystem.Prelude.{
  member, IsUnique, append-IsUnique, ℕ, List, [], ◌∷◌, ◌==◌, Bool, true, false, ◌&&◌, if◌then◌else◌,
  Bool-cases, inl, inr,
}
use trading_ecosystem.Run.{modify, pure, assert_failed}
use trading_ecosystem.Run.Ensures.{
  Ensures, Keeps, keeps_rules, Keeps-modify, Keeps-if, Keeps-pure, Keeps-bind, Keeps-require,
}
use trading_ecosystem.TcpServer.{
  TcpServer, WithSockets, accepted, listed, EpollEvent, Connection, push_new, receiving, sending,
  note_event, note_events, accept_all, poll,
}

push_new-IsUnique : (i : ℕ) (is : List ℕ) → IsUnique is → IsUnique (push_new i is)
unfolding push_new
push_new-IsUnique i is u = elim (Bool-cases (member i is)) [
  | inl known ↦ rw known u
  | inr unknown ↦ rw unknown (append-IsUnique i is unknown u)
]

-- Each of the two lists has every socket at most once.
pub record IsValid (t : TcpServer) : Type 0 where
  pub receive : IsUnique t.receive_sockets
  pub send : IsUnique t.send_sockets

note_event-IsValid : (e : EpollEvent) (t : TcpServer) → IsValid t → IsValid (note_event e t)
unfolding note_event
note_event-IsValid e t valid = go e.epollin e.epollout e.epollerr_or_hup
  where
    receiving-IsValid : (t : TcpServer) → IsValid t → IsValid (receiving e.socket t)
    receiving-IsValid t v = record {
      receive = push_new-IsUnique e.socket t.receive_sockets v.receive;
      send = v.send;
    }

    sending-IsValid : (t : TcpServer) → IsValid t → IsValid (sending e.socket t)
    sending-IsValid t v = record {
      receive = v.receive;
      send = push_new-IsUnique e.socket t.send_sockets v.send;
    }

    if_receiving :
        (b : Bool) (t : TcpServer) → IsValid t → IsValid (if b then receiving e.socket t else t)
    if_receiving true t v = receiving-IsValid t v
    if_receiving false t v = v

    if_sending :
        (b : Bool) (t : TcpServer) → IsValid t → IsValid (if b then sending e.socket t else t)
    if_sending true t v = sending-IsValid t v
    if_sending false t v = v

    go :
        (b o h : Bool)
        → IsValid (
            if h
            then receiving e.socket (
                if o
                then sending e.socket (if b then receiving e.socket t else t)
                else (if b then receiving e.socket t else t))
            else (if o
                then sending e.socket (if b then receiving e.socket t else t)
                else (if b then receiving e.socket t else t)))
    go b o h = if_receiving h _ (if_sending o _ (if_receiving b t valid))

note_events-IsValid :
    (es : List EpollEvent) (t : TcpServer) → IsValid t → IsValid (note_events es t).0
unfolding note_events
note_events-IsValid [] t v = v
note_events-IsValid (e ∷ es) t v =
    note_events-IsValid es _ (at_listener (e.epollin && (e.socket == t.listener_socket)))
  where
    at_listener : (b : Bool) → IsValid (if b then t else note_event e t)
    at_listener true = v
    at_listener false = note_event-IsValid e t v

abbrev IsValidWith : WithSockets → Type 0
IsValidWith p = IsValid p.tcp_server

connected : (c : Connection) → Keeps IsValidWith (modify (listed c))
connected c = Keeps-modify _ λ p v. record {
  receive = push_new-IsUnique c.socket p.tcp_server.receive_sockets v.receive;
  send = v.send;
}

accept_all-IsValid : (cs : List Connection) → Keeps IsValidWith (accept_all cs)
unfolding accept_all accepted
accept_all-IsValid [] = search keeps_rules
accept_all-IsValid (c ∷ cs) = Keeps-bind _ _ (Keeps-require c.is_set_up assert_failed) λ _.
    Keeps-bind _ _ (Keeps-modify (accepted c) (λ p v. v)) λ _.
      Keeps-bind _ _ (Keeps-require c.is_listed assert_failed)
        λ _. Keeps-bind _ _ (connected c) λ _. accept_all-IsValid cs

-- If no socket stands twice in the list of those that are read nor in the list of those that are
-- written, then neither does one after `poll`, if that returns, whatever events and connections the
-- kernel reports.
pub poll-IsValid :
    (events : List EpollEvent) (connections : List Connection) (p : WithSockets)
    → IsValid p.tcp_server
    → Ensures (λ _ p'. IsValid p'.tcp_server) (poll events connections p)
unfolding poll
poll-IsValid events connections p v =
    let accepting = accept_all-IsValid connections in
    (Keeps-if (note_events events p.tcp_server).1 (accept_all connections) (pure tt) accepting
        (Keeps-pure tt)).at
      _ (note_events-IsValid events p.tcp_server v)
