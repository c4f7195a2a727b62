-- ===== src/Eb.antt =====
-- eb/src/main.c: the benchmark client of the server, which logs in, offers files and goes.
pub mod Instance
pub mod Login
pub mod Loop
pub mod Bench
pub mod Main
use ed2kd.Base.{
  ℕ, zero, suc, ◌+◌, ◌-◌, ◌*◌, ◌/◌, ◌%◌, ◌^◌, Bool, true, false, not, ◌&&◌, ◌||◌, List, [], ◌∷◌,
  ◌++◌, Option, none, some, if◌then◌else◌, ltb, leb, ◌==◌, le16, le32, load32, u32, block, place,
  length, drop, codes, get_or, to_bit,
}
use ed2kd.Proto.{proto_edonkey, proto_packed, edonkeyversion}
use ed2kd.Proto.Op
use ed2kd.Proto.Tt
use ed2kd.Proto.Tn
use ed2kd.Proto.Ft
use ed2kd.Proto.Cap
use ed2kd.Packet.{header, tag_header}
use ed2kd.Wire.{P, go, malformed, ◌>>=◌, ◌>>◌, read32_into, read32, pure}

-- enum actions
pub data Action : Type 0 where
  offer query source : Action

-- struct ebclient; its event is created or not.
pub record EbClient : Type 0 where
  pub id : ℕ
  pub hash : List ℕ
  pub ev_action : Bool
  pub is_connected : Bool

-- The numbers of struct ebinstance, which main has checked to be positive at the start, and the
-- first `action_cnt` members of the array of actions. `broken` is a call of event_base_loopbreak.
pub record EbInstance : Type 0 where
  pub client_cnt : ℕ
  pub repeat_cnt : ℕ
  pub running_cnt : ℕ
  pub actions : List Action
  pub broken : Bool

abbrev pub alphanum : List ℕ
alphanum = codes "0123456789ABCDEFGHIJKLMNOPQRSTUVWXYZabcdefghijklmnopqrstuvwxyz"

-- get_rnd_str: the n-th call of rand gives `rand n`.
unfoldable pub get_rnd_str : (ℕ → ℕ) → ℕ → List ℕ
get_rnd_str rand zero = []
get_rnd_str rand (suc len) = get_or alphanum (rand 0 % 62) 0 ∷ get_rnd_str (λ n. rand (n + 1)) len

-- send_login_request: struct packet_login behind its header, of 66 - 5 bytes, and the packet. The
-- structure is packed, but not the one of tag_nick in it, whose 11 bytes are padded to an even
-- number; `pad` is the byte that is never set.
unfoldable pub login_body : List ℕ → ℕ → List ℕ
login_body hash pad =
    Op.loginrequest
    ∷ (hash
        ++ (le32 0
            ++ (le16 0
                ++ (le32 4
                    ++ (tag_header Tt.string Tn.name
                        ++ (le16 5
                            ++ (codes "ebtst"
                                ++ (pad ∷ tag_header Tt.uint16 Tn.port
                                    ++ (le16 0
                                        ++ (tag_header Tt.uint32 Tn.version
                                            ++ (le32 edonkeyversion
                                                ++ (tag_header Tt.uint32 Tn.server_flags
                                                    ++ le32 (
                                                        Cap.unicode + Cap.largefiles
                                                        + Cap.zlib)))))))))))))

unfoldable pub login_packet : List ℕ → ℕ → List ℕ
unfolding login_body
login_packet hash pad = header (66 - 5) ++ login_body hash pad

-- struct pub_file, of 62 bytes, with what changes from file to file: the hash and the name. As in
-- packet_login, tag_name has a byte of padding, which is the same in all files of a packet.
unfoldable pub offered_file : ℕ → List ℕ × List ℕ → List ℕ
offered_file pad (hash, name) =
    hash
    ++ (le32 0xfdfdfdfd
        ++ (le16 0xfdfd
            ++ (le32 4
                ++ (tag_header Tt.string Tn.filename
                    ++ (le16 5
                        ++ (name
                            ++ (pad ∷ tag_header Tt.uint32 Tn.filesize
                                ++ (le32 10240
                                    ++ (tag_header Tt.uint32 Tn.filerating
                                        ++ (le32 0
                                            ++ (tag_header Tt.uint32 Tn.filetype
                                                ++ le32 Ft.program)))))))))))

pub offered_files : ℕ → List (List ℕ × List ℕ) → List ℕ
offered_files pad [] = []
offered_files pad (f ∷ files) = offered_file pad f ++ offered_files pad files

-- send_offer_files with the random files that the loop makes, of which there are 200.
unfoldable pub offer_packet : ℕ → List (List ℕ × List ℕ) → List ℕ
unfolding offered_files
offer_packet pad files =
    header (length (offered_files pad files) + 10 - 5)
    ++ (Op.offerfiles ∷ le32 200 ++ offered_files pad files)

-- process_id_change
unfoldable pub process_id_change : (ℕ → ℕ) → ℕ → P EbClient (Unit {0})
unfolding read32_into read32
process_id_change m e = do
  read32_into m e (λ id c. record c { id = id })
  tcp_flags ← read32 m e
  pure tt

-- process_packet: of the packets that the server sends only the id is looked at. The flag is
-- `ret < 0`.
unfoldable pub process_packet : (ℕ → ℕ) → ℕ → ℕ → EbClient → Bool × EbClient
unfolding process_id_change
process_packet m e opcode c =
    if opcode == Op.idchange
    then (elim (process_id_change m e 0 c) [
      | go p c' _ ↦ (false, record c' { ev_action = true })
      | malformed c' ↦ (true, c')
    ])
    else (false, c)

module _ (uncompress : List ℕ → Option (List ℕ)) (beyond : ℕ → ℕ) where
  -- The body of a packet: its opcode and the rest, which may be compressed.
  unfoldable pub process_body : ℕ → List ℕ → ℕ → EbClient → Bool × EbClient
  unfolding process_packet
  process_body proto body len c =
      let at = place body beyond in
      let body_mem = λ (i : ℕ). at (i + 1) in
      let body_len = u32 (len + 2 ^ 32 - 1) in
      if proto == proto_packed
      then (elim (uncompress (block body_mem 0 body_len)) [
        | none ↦ (true, c)
        | some unpacked ↦ process_packet (place unpacked beyond) (length unpacked) (at 0) c
      ])
      else process_packet body_mem body_len (at 0) c

  -- The loop of read_cb: a packet of unknown protocol and one that cannot be read are only reported.
  -- The result is what is left of the input; `none` says that the fuel ran out, which counts the
  -- packets.
  unfoldable pub read_loop : ℕ → List ℕ → EbClient → Option (List ℕ × EbClient)
  unfolding process_body
  read_loop zero input c = none
  read_loop (suc fuel) input c =
      let at = place input beyond in
      let packet_len = load32 at 1 + 5 in
      let (failed, c') = process_body (at 0) (drop 5 input) (load32 at 1) c in
      let rest = read_loop fuel (drop packet_len input) c' in
      if leb (length input) 5
      then some (input, c)
      else if ltb (length input) packet_len
      then some (input, c)
      else rest

  -- read_cb
  unfoldable pub read_cb : List ℕ → EbClient → Option (List ℕ × EbClient)
  unfolding read_loop
  read_cb input c = read_loop (length input + 1) input c
