-- ===== src/State.antt =====
-- The state that a handler runs on: `g_srv` and its configuration (src/server.h), the client that
-- the job is about (src/client.h), the database, and what has been sent.
use ed2kd.Base.{◌⊎◌, inl, inr, refl, ℕ, ◌+◌, ◌≡◌, Bool, true, false, List, [], ◌∷◌, ◌++◌, Option}
use ed2kd.Util.Bucket.{TokenBucket}

-- struct server_config
pub record Config : Type 0 where
  pub listen_addr_inaddr : ℕ
  pub listen_port : ℕ
  pub listen_backlog : ℕ
  pub hash : List ℕ
  pub srv_tcp_flags : ℕ
  pub welcome_msg_len : ℕ
  pub welcome_msg : List ℕ
  pub server_name_len : ℕ
  pub server_name : List ℕ
  pub server_descr_len : ℕ
  pub server_descr : List ℕ
  pub max_clients : ℕ
  pub max_files : ℕ
  pub max_files_per_client : ℕ
  pub max_offers_limit : ℕ
  pub max_searches_limit : ℕ
  pub allow_lowid : Bool

-- The part of struct server_instance that handlers read and write. `listening` is the state of the
-- connection listener, which the code switches on and off.
pub record Server : Type 0 where
  pub user_count : ℕ
  pub file_count : ℕ
  pub lowid_counter : ℕ
  pub listening : Bool

-- struct client. A pointer that the code only tests, creates and frees is a Boolean: is it not
-- NULL. `freed` is not in the source: the memory of the structure has been given back.
pub record Client : Type 0 where
  pub hash : List ℕ
  pub ip : ℕ
  pub port : ℕ
  pub id : ℕ
  pub nick : List ℕ
  pub nick_len : ℕ
  pub tcp_flags : ℕ
  pub file_count : ℕ
  pub portcheck_finished : Bool
  pub lowid : Bool
  pub shared_files : List (List ℕ)
  pub bev : Bool
  pub bev_pc : Bool
  pub evtimer_portcheck : Bool
  pub evtimer_status_notify : Bool
  pub ref_cnt : ℕ
  pub deleted : Bool
  pub limit_offer : TokenBucket
  pub limit_search : TokenBucket
  pub freed : Bool

-- What is written to the client's connection, and to the connection of the port check.
pub data Output : Type 0 where
  to_client : List ℕ → Output
  to_peer : List ℕ → Output

-- `calls` counts the questions to the environment: the time, and whether a connection starts.
pub record World (D : Type 0) : Type 0 where
  pub cfg : Config
  pub srv : Server
  pub clnt : Client
  pub db : D
  pub out : List Output
  pub calls : ℕ

-- A use of memory that is not there: a call of libevent with a NULL bufferevent, and a use of the
-- input buffer of a bufferevent that was freed.
pub data Fault : Type 0 where
  null_bev use_after_free : Fault

pub data Res {ℓ} (A : Type ℓ) : Type ℓ where
  ok : A → Res A
  fault : Fault → Res A

abbrev pub M : Type 0 → Type 0 → Type 0
M D A = World D → Res (A × World D)

infixl 5 ◌>>=◌ ◌>>◌
abbrev pub ◌>>=◌ : {D A B : Type 0} → M D A → (A → M D B) → M D B
◌>>=◌ m f w = elim (m w) [ ok (a, w') ↦ f a w' | fault e ↦ fault e ]

abbrev pub ◌>>◌ : {D B : Type 0} → M D (Unit {0}) → M D B → M D B
m >> k = m >>= λ _. k

abbrev pub pure : {D A : Type 0} → A → M D A
pure a w = ok (a, w)

abbrev pub get : {D : Type 0} → M D (World D)
get w = ok (w, w)

-- An assignment to the client's fields.
abbrev pub set_client : {D : Type 0} → (Client → Client) → M D (Unit {0})
set_client f w = ok (tt, record w { clnt = f w.clnt })

abbrev pub set_server : {D : Type 0} → (Server → Server) → M D (Unit {0})
set_server f w = ok (tt, record w { srv = f w.srv })

-- The answers of the system: the time in seconds, whether a connection to the client's port could
-- be started, the local address of that connection as ntohl gives it, zlib's uncompress, and the
-- memory that lies behind a buffer.
pub record System : Type 0 where
  pub clock : ℕ → ℕ
  pub connects : ℕ → Bool
  pub local_addr : ℕ → ℕ
  pub uncompress : List ℕ → Option (List ℕ)
  pub beyond : ℕ → ℕ

abbrev pub ask : {D A : Type 0} → (ℕ → A) → M D A
ask answer w = ok (answer w.calls, record w { calls = w.calls + 1 })

-- bufferevent_write to the client: it wants the bufferevent.
unfoldable pub write : {D : Type 0} → List ℕ → M D (Unit {0})
write bytes w = elim w.clnt.bev [
  | true ↦ ok (tt, record w { out = w.out ++ (to_client bytes ∷ []) })
  | false ↦ fault null_bev
]

-- bufferevent_write to the peer of the port check.
unfoldable pub write_pc : {D : Type 0} → List ℕ → M D (Unit {0})
write_pc bytes w = elim w.clnt.bev_pc [
  | true ↦ ok (tt, record w { out = w.out ++ (to_peer bytes ∷ []) })
  | false ↦ fault null_bev
]

-- A handler that runs to its end without a fault, in a state as described.
abbrev pub Ensures : {D A : Type 0} → Res (A × World D) → (A → World D → Type 0) → Type 0
Ensures (ok (a, w)) post = post a w
Ensures (fault e) post = ⊥

pub Res-cases :
    {D A : Type 0} (r : Res (A × World D))
    → ((a : A) × (w : World D) × (r ≡ ok (a, w))) ⊎ ((f : Fault) × (r ≡ fault f))
Res-cases (ok (a, w)) = inl (a, w, refl)
Res-cases (fault f) = inr (f, refl)
