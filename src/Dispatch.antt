-- ===== src/Dispatch.antt =====
-- src/server.c: process_search_request, process_packet, server_read and server_event.
pub mod Reject
pub mod Read
use ed2kd.Base.{
  ℕ, zero, suc, ◌+◌, ◌*◌, ◌-◌, ◌^◌, ◌%◌, Bool, true, false, not, List, [], ◌∷◌, ◌++◌, Option, none,
  some, ◌==◌, ◌&&◌, ◌||◌, ltb, leb, if◌then◌else◌, u32, load32, block, place, length, drop, codes,
}
use ed2kd.Proto.{proto_edonkey, proto_packed, ed2k_hash_size}
use ed2kd.Proto.Op
use ed2kd.State.{
  Client, Config, World, System, M, Res, ok, fault, use_after_free, ◌>>=◌, ◌>>◌, pure, get,
  set_client, ask, write,
}
use ed2kd.Util.Bucket.{token_bucket_update}
use ed2kd.Db.{Sqlite}
use ed2kd.Wire.{Out, go, malformed}
use ed2kd.Packet.{server_ident, server_message, callback_fail}
use ed2kd.Client.{client_delete, client_get_sources, send_text}
use ed2kd.Login.{process_login_request}
use ed2kd.Offer.{process_offer_files}
use ed2kd.Search.{parse_search}
use ed2kd.Search.Query.{client_search_files}

abbrev pub highid_warning : List ℕ
highid_warning = codes "WARNING: Only HighID clients!"

module _ {D : Type 0} (q : Sqlite D) (sys : System) where
  -- process_search_request
  unfoldable pub process_search_request : (ℕ → ℕ) → ℕ → M D Bool
  unfolding parse_search client_search_files
  process_search_request m e w = elim (parse_search m e) [
    | some (go _ _ root) ↦ elim (client_search_files q root w) [
      | ok (_, w') ↦ ok (true, w')
      | fault f ↦ fault f
    ]
    | some (malformed _) ↦ ok (false, w)
    | none ↦ ok (false, w)
  ]

  -- The label `malformed` of process_packet, and its returns of 0: the client is deleted.
  unfoldable pub drop_client : M D Bool
  unfolding client_delete
  drop_client = client_delete q >>= λ _. pure false

  -- PB_CHECK of a handler's result, and return 1.
  unfoldable pub checked : M D Bool → M D Bool
  unfolding drop_client
  checked handler = handler >>= λ done. if done then pure true else drop_client

  -- case OP_LOGINREQUEST
  unfoldable pub login_case : (ℕ → ℕ) → ℕ → M D Bool
  unfolding client_delete write process_login_request checked
  login_case m e = do
    w ← get
    if w.clnt.id == 0 then pure tt else client_delete q
    write (server_message w.cfg.welcome_msg w.cfg.welcome_msg_len)
    if w.cfg.allow_lowid then pure tt else send_text highid_warning
    checked (process_login_request q sys m e)

  -- token_bucket_update of the client's bucket for searches, and for offers.
  unfoldable pub search_token : M D Bool
  unfolding token_bucket_update
  search_token = do
    now ← ask sys.clock
    w ← get
    set_client (λ c. record c {
      limit_search = (token_bucket_update now w.clnt.limit_search w.cfg.max_searches_limit).0;
    })
    pure (token_bucket_update now w.clnt.limit_search w.cfg.max_searches_limit).1

  unfoldable pub offer_token : M D Bool
  unfolding token_bucket_update
  offer_token = do
    now ← ask sys.clock
    w ← get
    set_client (λ c. record c {
      limit_offer = (token_bucket_update now w.clnt.limit_offer w.cfg.max_offers_limit).0;
    })
    pure (token_bucket_update now w.clnt.limit_offer w.cfg.max_offers_limit).1

  -- case OP_SEARCHREQUEST: what process_search_request returns is not looked at.
  unfoldable pub search_case : (ℕ → ℕ) → ℕ → M D Bool
  unfolding search_token process_search_request drop_client
  search_case m e = do
    granted ← search_token
    (if granted then (process_search_request m e >>= λ _. pure true) else drop_client)

  -- case OP_OFFERFILES
  unfoldable pub offer_case : (ℕ → ℕ) → ℕ → M D Bool
  unfolding offer_token process_offer_files drop_client checked
  offer_case m e = do
    granted ← offer_token
    (if granted then checked (process_offer_files q m e) else drop_client)

  -- The switch.
  unfoldable pub dispatch : (ℕ → ℕ) → ℕ → ℕ → M D Bool
  unfolding login_case search_case offer_case drop_client client_delete client_get_sources write
      block
  dispatch m e opcode =
      if opcode == Op.loginrequest
      then login_case m e
      else if opcode == Op.getserverlist
      then (get >>= λ w. write (server_ident w.cfg) >> pure true)
      else if opcode == Op.searchrequest
      then search_case m e
      else if opcode == Op.query_more_result
      then pure true
      else if opcode == Op.disconnect
      then (client_delete q >> pure true)
      else if opcode == Op.getsources
      then (if e == ed2k_hash_size
          then (client_get_sources q (block m 0 ed2k_hash_size) >> pure true)
          else drop_client)
      else if opcode == Op.offerfiles
      then offer_case m e
      else if opcode == Op.callbackrequest
      then (write callback_fail >> pure true)
      else if opcode == Op.getsources_obfu || opcode == Op.reject
      then pure true
      else drop_client

  -- process_packet, with the packet at address 0: before the port check only a login is let in.
  unfoldable pub process_packet : (ℕ → ℕ) → ℕ → ℕ → M D Bool
  unfolding dispatch drop_client
  process_packet m e opcode = do
    w ← get
    (if w.clnt.portcheck_finished || Op.loginrequest == opcode
        then dispatch m e opcode
        else drop_client)

  -- The body of a packet: its opcode and the rest, which may be compressed. The memory from the
  -- opcode on is that of the input, and then whatever lies behind it; the length is unsigned.
  unfoldable pub process_body : ℕ → List ℕ → ℕ → M D Bool
  unfolding process_packet block place
  process_body proto body len =
      let at = place body sys.beyond in
      let body_mem = λ (i : ℕ). at (i + 1) in
      let body_len = u32 (len + 2 ^ 32 - 1) in
      if proto == proto_packed
      then (elim (sys.uncompress (block body_mem 0 body_len)) [
        | none ↦ pure false
        | some unpacked ↦ process_packet (place unpacked sys.beyond) (length unpacked) (at 0)
      ])
      else process_packet body_mem body_len (at 0)

  -- evbuffer_drain: the buffer belongs to the bufferevent.
  unfoldable pub drain : M D (Unit {0})
  drain w = if w.clnt.bev then ok (tt, w) else fault use_after_free

  -- The loop of server_read. The result is what is left in the input buffer; `none` says that the
  -- fuel ran out, which counts the packets.
  unfoldable pub read_loop : ℕ → List ℕ → M D (Option (List ℕ))
  unfolding process_body drain client_delete place
  read_loop zero input w = ok (none, w)
  read_loop (suc fuel) input w =
      let at = place input sys.beyond in
      let packet_len = load32 at 1 + 5 in
      if w.clnt.deleted || leb (length input) 5
      then ok (some input, w)
      else if not (proto_packed == at 0) && not (proto_edonkey == at 0)
      then (client_delete q >> pure (some input)) w
      else if ltb (length input) packet_len
      then ok (some input, w)
      else (process_body (at 0) (drop 5 input) (load32 at 1) >>= (λ ret.
            if ret
            then (drain >>= λ _. read_loop fuel (drop packet_len input))
            else pure (some input)))
          w

  -- server_read
  unfoldable pub server_read : List ℕ → M D (Option (List ℕ))
  unfolding read_loop
  server_read input = read_loop (length input + 1) input

  -- server_event; the flag is `events & (BEV_EVENT_EOF | BEV_EVENT_ERROR)`.
  unfoldable pub server_event : Bool → M D (Unit {0})
  unfolding client_delete
  server_event ended = if ended then client_delete q else pure tt
