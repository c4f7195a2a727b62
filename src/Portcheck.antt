-- ===== src/Portcheck.antt =====
-- src/portcheck.c: the connection back to the client, which shows that it can be reached.
pub mod Answer
use ed2kd.Base.{
  ℕ, zero, suc, ◌+◌, ◌*◌, ◌-◌, ◌^◌, ◌%◌, ◌/◌, Bool, true, false, not, List, [], ◌∷◌, ◌++◌, Option,
  none, some, ◌==◌, ◌&&◌, ◌||◌, ltb, leb, eqb, if◌then◌else◌, u32, le16, le32, load32, block, place,
  length, drop, codes,
}
use ed2kd.Proto.{proto_edonkey, proto_packed, ed2k_hash_size, edonkeyversion}
use ed2kd.Proto.Op
use ed2kd.Proto.Tt
use ed2kd.Proto.Tn
use ed2kd.State.{
  Client, Config, World, System, M, Res, ok, fault, use_after_free, null_bev, ◌>>=◌, ◌>>◌, pure,
  get, ask, write_pc,
}
use ed2kd.Db.{Sqlite}
use ed2kd.Packet.{header}
use ed2kd.Client.{client_portcheck_finish}

-- send_hello: struct packet_hello, of 48 bytes.
unfoldable pub hello : Config → ℕ → List ℕ
hello cfg client_id =
    header (48 - 5)
    ++ Op.hello ∷ 16 ∷ cfg.hash
    ++ le32 client_id
    ++ le16 4662
    ++ le32 2
    ++ (Tt.str5 + 0x80) ∷ Tn.name ∷ codes "ed2kd"
    ++ (Tt.uint8 + 0x80) ∷ Tn.version ∷ edonkeyversion ∷ le32 0
    ++ le16 0

module _ {D : Type 0} (q : Sqlite D) (sys : System) where
  unfoldable pub send_hello : M D (Unit {0})
  unfolding hello write_pc
  send_hello = do w ← get; id ← ask sys.local_addr; write_pc (hello w.cfg id)

  -- process_hello_answer: more than a hash is left, and the hash is the one of the login.
  unfoldable pub process_hello_answer : (ℕ → ℕ) → ℕ → Client → Bool
  unfolding block
  process_hello_answer m e c = ltb ed2k_hash_size e && eqb c.hash (block m 0 ed2k_hash_size)

  -- process_packet, with the packet at address 0.
  unfoldable pub process_packet : (ℕ → ℕ) → ℕ → ℕ → M D Bool
  unfolding process_hello_answer client_portcheck_finish
  process_packet m e opcode = do
    w ← get
    (if opcode == Op.helloanswer
        then (if process_hello_answer m e w.clnt
            then (client_portcheck_finish q true >> pure true)
            else pure false)
        else pure true)

  -- The body of a packet, as in server_read.
  unfoldable pub process_body : ℕ → List ℕ → ℕ → M D Bool
  unfolding process_packet block place
  process_body proto body len =
      let at = place body sys.beyond in
      let body_mem = λ (i : ℕ). at (i + 1) in
      let body_len = u32 (len + 2 ^ 32 - 1) in
      if proto == proto_packed
      then (elim (sys.uncompress (block body_mem 0 body_len)) [
        | none ↦ pure false
        | some unpacked ↦ process_packet (place unpacked sys.beyond) (length unpacked) (at 0)
      ])
      else process_packet body_mem body_len (at 0)

  -- The end of a pass: a packet that was not accepted fails the check; when the check is over, the
  -- input buffer is gone, and the function returns.
  unfoldable pub after_packet :
      Bool → M D (Option (List ℕ)) → M D (Option (List ℕ)) → M D (Option (List ℕ))
  unfolding client_portcheck_finish
  after_packet ret stop next = do
    w ← get
    (if not ret
        then (client_portcheck_finish q false >> stop)
        else if w.clnt.portcheck_finished
        then stop
        else if w.clnt.bev_pc
        then next
        else (λ _. fault use_after_free))

  -- The loop of portcheck_read. The result is what is left of the input; `none` says that the fuel
  -- ran out, which counts the packets.
  unfoldable pub read_loop : ℕ → List ℕ → M D (Option (List ℕ))
  unfolding process_body after_packet client_portcheck_finish place
  read_loop zero input w = ok (none, w)
  read_loop (suc fuel) input w =
      let at = place input sys.beyond in
      let packet_len = load32 at 1 + 5 in
      if w.clnt.deleted || leb (length input) 5
      then ok (some input, w)
      else if not (proto_packed == at 0) && not (proto_edonkey == at 0)
      then (client_portcheck_finish q false >> pure (some input)) w
      else if ltb (length input) packet_len
      then ok (some input, w)
      else (process_body (at 0) (drop 5 input) (load32 at 1) >>= (λ ret.
            after_packet ret (pure (some input)) (λ w'. read_loop fuel (drop packet_len input) w')))
          w

  -- portcheck_read: bufferevent_get_input wants the bufferevent.
  unfoldable pub portcheck_read : List ℕ → M D (Option (List ℕ))
  unfolding read_loop
  portcheck_read input = do
    w ← get
    (if w.clnt.portcheck_finished
        then pure (some input)
        else if w.clnt.bev_pc
        then read_loop (length input + 1) input
        else (λ _. fault null_bev))

  -- portcheck_timeout
  unfoldable pub portcheck_timeout : M D (Unit {0})
  unfolding client_portcheck_finish
  portcheck_timeout = do
    w ← get
    (if w.clnt.portcheck_finished then pure tt else client_portcheck_finish q false)

  -- portcheck_event; the flags are `events & (BEV_EVENT_EOF | BEV_EVENT_ERROR)`, and
  -- `events & BEV_EVENT_CONNECTED`.
  unfoldable pub portcheck_event : Bool → Bool → M D (Unit {0})
  unfolding client_portcheck_finish send_hello
  portcheck_event ended connected = do
    w ← get
    (if w.clnt.portcheck_finished
        then pure tt
        else if ended
        then client_portcheck_finish q false
        else if connected
        then send_hello
        else pure tt)
