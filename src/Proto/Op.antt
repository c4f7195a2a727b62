-- ===== src/Proto/Op.antt =====
-- src/ed2k_proto.h: enum packet_opcode.
use ed2kd.Base.{ℕ}

abbrev pub hello : ℕ
hello = 0x01

abbrev pub helloanswer : ℕ
helloanswer = 0x4c

abbrev pub loginrequest : ℕ
loginrequest = 0x01

abbrev pub reject : ℕ
reject = 0x05

abbrev pub getserverlist : ℕ
getserverlist = 0x14

abbrev pub offerfiles : ℕ
offerfiles = 0x15

abbrev pub searchrequest : ℕ
searchrequest = 0x16

abbrev pub disconnect : ℕ
disconnect = 0x18

abbrev pub getsources : ℕ
getsources = 0x19

abbrev pub callbackrequest : ℕ
callbackrequest = 0x1c

abbrev pub query_more_result : ℕ
query_more_result = 0x21

abbrev pub getsources_obfu : ℕ
getsources_obfu = 0x23

abbrev pub searchresult : ℕ
searchresult = 0x33

abbrev pub serverstatus : ℕ
serverstatus = 0x34

abbrev pub callback_fail : ℕ
callback_fail = 0x36

abbrev pub servermessage : ℕ
servermessage = 0x38

abbrev pub idchange : ℕ
idchange = 0x40

abbrev pub serverident : ℕ
serverident = 0x41

abbrev pub foundsources : ℕ
foundsources = 0x42
