-- ===== src/Job/Packets.antt =====
-- src/server.c: the packets, and the loop that reads them.
use ed2kd.Base.{
  ℕ, ◌^◌, ◌-◌, u32, block, zero, suc, ◌+◌, ◌≡◌, refl, Bool, true, false, not, List, Option, none,
  some, arith, ◌==◌, ◌||◌, ◌&&◌, leb, ltb, length, load32, place, if◌then◌else◌,
}
use ed2kd.Proto.{proto_edonkey, proto_packed}
use ed2kd.Proto.Op
use ed2kd.State.{World, System, M, Res, pure, ◌>>=◌}
use ed2kd.Db.{Sqlite}
use ed2kd.Offer.{process_offer_files}
use ed2kd.Dispatch.{
  process_search_request, drop_client, checked, login_case, search_token, offer_token, search_case,
  offer_case, dispatch, process_packet, process_body, drain, read_loop,
}
use ed2kd.Job.Steady.{
  Alike-Stays, Kept, Steady, Stays-refl, Steady->>=, Steady-if, Steady-pure, Steady-get,
  Steady-write,
}
use ed2kd.Job.Alive.{Alive, Sparing, Steady-Alive, Alive->>=, Alive-behind, Alive-if, Sparing-get}
use ed2kd.Job.Handlers.{
  Steady-client_delete, Steady-sources, Steady-login, search_stays, offer_stays,
}

module _ {D : Type 0} (q : Sqlite D) (sys : System) where
  Steady-drop : Steady q (drop_client q sys)
  unfolding drop_client
  Steady-drop = Steady->>= _ _ (Steady-client_delete q sys) (λ _. Steady-pure false)

  Steady-checked : (f : M D Bool) → Steady q f → Steady q (checked q sys f)
  unfolding checked
  Steady-checked f h = Steady->>= f _ h (λ done. Steady-if done _ _ (Steady-pure true) Steady-drop)

  Steady-login_case : (m : ℕ → ℕ) (e : ℕ) → Steady q (login_case q sys m e)
  unfolding login_case
  Steady-login_case m e =
      search
        (
          Steady->>=, Steady-if, Steady-get, Steady-pure, Steady-client_delete, Steady-write,
          Steady-checked, Steady-login,
        )
        depth 12

  search_token_stays : (w : World D) → Kept q w (search_token q sys w)
  unfolding search_token
  search_token_stays w = Alike-Stays (record {
    base = refl;
    config = refl;
    users = refl;
    server_files = refl;
    listens = refl;
    refs = refl;
    freed = refl;
    deleted = refl;
    files = refl;
  })

  offer_token_stays : (w : World D) → Kept q w (offer_token q sys w)
  unfolding offer_token
  offer_token_stays w = Alike-Stays (record {
    base = refl;
    config = refl;
    users = refl;
    server_files = refl;
    listens = refl;
    refs = refl;
    freed = refl;
    deleted = refl;
    files = refl;
  })

  Steady-search_token : Steady q (search_token q sys)
  Steady-search_token = record { steady = search_token_stays }

  Steady-offer_token : Steady q (offer_token q sys)
  Steady-offer_token = record { steady = offer_token_stays }

  Steady-search_request : (m : ℕ → ℕ) (e : ℕ) → Steady q (process_search_request q sys m e)
  Steady-search_request m e = record { steady = search_stays q sys m e }

  Alive-offer_request : (m : ℕ → ℕ) (e : ℕ) → Alive q (process_offer_files q m e)
  Alive-offer_request m e = record { alive = offer_stays q sys m e }

  Steady-search_case : (m : ℕ → ℕ) (e : ℕ) → Steady q (search_case q sys m e)
  unfolding search_case
  Steady-search_case m e =
      search
        (
          Steady->>=, Steady-if, Steady-pure, Steady-search_token, Steady-search_request,
          Steady-drop,
        )
        depth 9

  Alive-checked : (f : M D Bool) → Alive q f → Alive q (checked q sys f)
  unfolding checked
  Alive-checked f h = Alive->>= f _ h (λ done. Steady-if done _ _ (Steady-pure true) Steady-drop)

  Sparing-offer_token : Sparing (offer_token q sys)
  unfolding offer_token
  Sparing-offer_token = record { spares = λ w live_now. live_now }

  Alive-offer_case : (m : ℕ → ℕ) (e : ℕ) → Alive q (offer_case q sys m e)
  unfolding offer_case
  Alive-offer_case m e = Alive-behind _ _ Steady-offer_token Sparing-offer_token (λ granted.
      Alive-if granted _ _ (Alive-checked _ (Alive-offer_request m e)) (Steady-Alive Steady-drop))

  Alive-dispatch : (m : ℕ → ℕ) (e opcode : ℕ) → Alive q (dispatch q sys m e opcode)
  unfolding dispatch
  Alive-dispatch m e opcode =
      search
        (
          Alive-if, Alive-offer_case, Steady-Alive, Steady->>=, Steady-if, Steady-get, Steady-pure,
          Steady-write, Steady-drop, Steady-client_delete, Steady-sources, Steady-login_case,
          Steady-search_case,
        )
        depth 20

  Alive-process_packet : (m : ℕ → ℕ) (e opcode : ℕ) → Alive q (process_packet q sys m e opcode)
  unfolding process_packet
  Alive-process_packet m e opcode = Alive-behind _ _ Steady-get Sparing-get (λ w.
      Alive-if (w.clnt.portcheck_finished || Op.loginrequest == opcode) _ _
        (Alive-dispatch m e opcode) (Steady-Alive Steady-drop))

  unpacked_stays :
      (o : Option (List ℕ)) (at : ℕ) (w : World D)
      → w.clnt.deleted ≡ false
      → let body : M D Bool = elim o [
        | none ↦ pure false
        | some unpacked ↦ process_packet q sys (place unpacked sys.beyond) (length unpacked) at
      ] in
        Kept q w (body w)
  unpacked_stays none at w live_now = Stays-refl w
  unpacked_stays (some unpacked) at w live_now = (Alive-process_packet _ _ at).alive w live_now

  Alive-process_body :
      (proto : ℕ) (body : List ℕ) (len : ℕ) → Alive q (process_body q sys proto body len)
  unfolding process_body
  Alive-process_body proto body len =
      let body_mem = λ (i : ℕ). place body sys.beyond (i + 1) in
      let body_len = u32 (len + 2 ^ 32 - 1) in
      Alive-if (proto == proto_packed) _ _
        (record {
          alive =
              unpacked_stays (sys.uncompress (block body_mem 0 body_len)) (place body sys.beyond 0);
        })
        (Alive-process_packet body_mem body_len (place body sys.beyond 0))

  drain_stays : (w : World D) → Kept q w (drain q sys w)
  unfolding drain
  drain_stays w = ground (arith, Stays-refl {q = q} w)

  pub Kept-if :
      {A : Type 0} (b : Bool) (c : World D) (r r' : Res (A × World D))
      → Kept q c r
      → Kept q c r'
      → Kept q c (if b then r else r')
  Kept-if true c r r' h h' = h
  Kept-if false c r r' h h' = h'

  Kept-unless :
      {A : Type 0} (gone short : Bool) (c : World D) (r r' : Res (A × World D))
      → Kept q c r
      → (gone ≡ false → Kept q c r')
      → Kept q c (if gone || short then r else r')
  Kept-unless true short c r r' h k = h
  Kept-unless false true c r r' h k = h
  Kept-unless false false c r r' h k = k refl

  -- The packet at the front of the input.
  Alive-front :
      (input : List ℕ) (rest : List ℕ → M D (Option (List ℕ))) (proto len : ℕ) (body : List ℕ)
      → ((left : List ℕ) → Steady q (rest left))
      → (left : List ℕ)
      → Alive q (
          process_body q sys proto body len >>= λ ret.
          if ret then (drain q sys >>= λ _. rest left) else pure (some input))
  Alive-front input rest proto len body h left =
      Alive->>= _ _ (Alive-process_body proto body len) (λ ret.
        Steady-if ret _ _ (Steady->>= _ _ (record { steady = drain_stays }) (λ _. h left))
          (Steady-pure (some input)))

  pub Steady-read_loop : (fuel : ℕ) (input : List ℕ) → Steady q (read_loop q sys fuel input)
  unfolding read_loop
  Steady-read_loop zero input = record { steady = λ w. Stays-refl w }
  Steady-read_loop (suc fuel) input = record {
    steady = λ w.
        Kept-unless w.clnt.deleted (leb (length input) 5) _ _ _ (Stays-refl w) (λ live_now.
          Kept-if
            (not (proto_packed == place input sys.beyond 0)
              && not (proto_edonkey == place input sys.beyond 0))
            _ _ _
            ((Steady->>= _ _ (Steady-client_delete q sys) (λ _. Steady-pure (some input))).steady w)
            (Kept-if (ltb (length input) (load32 (place input sys.beyond) 1 + 5)) _ _ _
              (Stays-refl w)
              ((Alive-front input (read_loop q sys fuel) _ _ _ (Steady-read_loop fuel) _).alive w
                live_now)));
  }
