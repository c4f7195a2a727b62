-- ===== src/Listener.antt =====
-- src/listener.c: the socket that clients connect to.
use ed2kd.Base.{ℕ, Bool, true, false, if◌then◌else◌}
use ed2kd.State.{Config, Server, Client, Res, ok, fault, null_bev}
use ed2kd.Client.{client_new}

-- accept_cb: a new client with its connection and address. The answers of the environment are the
-- two times that client_new asks for, and whether bufferevent_socket_new gave a bufferevent, which
-- bufferevent_setcb wants.
unfoldable pub accept_cb : Config → ℕ → ℕ → Bool → ℕ → Server → Res (Client × Server)
unfolding client_new
accept_cb cfg now₁ now₂ made s_addr srv =
    let (clnt, srv') = client_new cfg now₁ now₂ srv in
    if made then ok (record clnt { bev = true; ip = s_addr }, srv') else fault null_bev

-- server_listen, up to the event loop: the result, and the listener, which is on. The answers are
-- whether the address could be parsed, and whether the socket could be bound.
unfoldable pub server_listen : Bool → Bool → Server → Bool × Server
server_listen parsed bound srv =
    if parsed
    then (if bound then (true, record srv { listening = true }) else (false, srv))
    else (false, srv)
