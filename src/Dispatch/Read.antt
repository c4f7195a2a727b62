-- ===== src/Dispatch/Read.antt =====
-- src/server.c: the loop of server_read, and the two packets after which it goes wrong.
use ed2kd.Base.{
  ℕ, zero, suc, ◌+◌, ◌<◌, ◌≡◌, ◌≢◌, refl, ◌∙◌, Bool, true, false, not, List, ◌∷◌, Option, none,
  some, arith, inl, inr, ◌==◌, ◌&&◌, ◌||◌, ltb, leb, if◌then◌else◌, load32, place, length,
  length-drop, drop,
}
use mathlib.Core.Path.{subst}
use ed2kd.Proto.{proto_edonkey, proto_packed}
use ed2kd.Proto.Op
use ed2kd.State.{
  Res-cases, Ensures, World, System, M, Res, ok, fault, use_after_free, null_bev, ◌>>=◌, ◌>>◌, pure,
  write,
}
use ed2kd.Db.{Sqlite}
use ed2kd.Client.{client_delete, free_unreferenced, delete_live, release}
use ed2kd.Dispatch.{
  login_case, process_packet, process_body, drain, read_loop, server_read, dispatch,
}

-- The loop has not run out of fuel.
abbrev pub InTime : {D : Type 0} → Res (Option (List ℕ) × World D) → Type 0
InTime (ok (none, w)) = ⊥
InTime (ok (some left, w)) = Unit
InTime (fault f) = Unit

record Ends {D : Type 0} (f : M D (Option (List ℕ))) : Type 0 where
  ends : (w : World D) → InTime (f w)

Ends->>= :
    {D A : Type 0} (f : M D A) (g : A → M D (Option (List ℕ)))
    → ((a : A) → Ends (g a))
    → Ends (f >>= g)
Ends->>= f g hg = record {
  ends = λ w. elim (Res-cases (f w)) [
    | inl (a, t, eq) ↦ rw (eq, ◌>>=◌, InTime) ((hg a).ends t)
    | inr (e, eq) ↦ rw (eq, ◌>>=◌, InTime) tt
  ];
}

Ends-if :
    {D : Type 0} (b : Bool) (f g : M D (Option (List ℕ)))
    → Ends f
    → Ends g
    → Ends (if b then f else g)
Ends-if true f g hf hg = hf
Ends-if false f g hf hg = hg

Ends-pure : {D : Type 0} (left : List ℕ) → Ends {D = D} (pure (some left))
Ends-pure left = record { ends = λ w. tt }

-- The same for a result that is there.
InTime-if :
    {D : Type 0} (b : Bool) (r r' : Res (Option (List ℕ) × World D))
    → InTime r
    → (b ≡ false → InTime r')
    → InTime (if b then r else r')
InTime-if true r r' h h' = h
InTime-if false r r' h h' = h' refl

or_right : (a b : Bool) → a || b ≡ false → b ≡ false
or_right true b h = cc
or_right false b h = h

not_le : (a b : ℕ) → leb a b ≡ false → b < a
not_le a b h = ground arith

drop_shorter :
    (n fuel : ℕ) (input : List ℕ)
    → 0 < length input
    → length input < suc fuel
    → length (drop (n + 5) input) < fuel
drop_shorter n fuel input h lt = omega (arith, length-drop (n + 5) input)

if_false : {A : Type 0} (b : Bool) (x y : A) → b ≡ false → (if b then x else y) ≡ y
if_false true x y h = cc
if_false false x y h = refl

bind_at :
    {D A B : Type 0} (f g : M D A) (k : A → M D B) (w : World D)
    → f w ≡ g w
    → (f >>= k) w ≡ (g >>= k) w
bind_at f g k w h = rw (h, ◌>>=◌) refl

module _ {D : Type 0} (q : Sqlite D) (sys : System) where
  read_loop-Ends :
      (fuel : ℕ) (input : List ℕ) → length input < fuel → Ends (read_loop q sys fuel input)
  unfolding read_loop
  read_loop-Ends zero input h = absurd (omega arith)
  read_loop-Ends (suc fuel) input h = record {
    ends = λ w. InTime-if (w.clnt.deleted || leb (length input) 5) _ _ tt (λ long.
        InTime-if
          (not (proto_packed == place input sys.beyond 0)
            && not (proto_edonkey == place input sys.beyond 0))
          _ _ ((Ends->>= (client_delete q) (λ _. pure (some input)) (λ _. Ends-pure input)).ends w)
          (λ _. InTime-if (ltb (length input) (load32 (place input sys.beyond) 1 + 5)) _ _ tt (λ _.
            (Ends->>= (process_body q sys _ _ _) _ (λ ret.
                Ends-if ret _ _
                  (Ends->>= (drain q sys) _ (λ _. read_loop-Ends fuel _ (
                    drop_shorter _ fuel input
                      (omega (arith, not_le (length input) 5 (or_right w.clnt.deleted _ long))) h)))
                  (Ends-pure input))).ends
              w)));
  }

  -- server_read ends on every input, with what is left of it or with a fault: the fuel of its loop,
  -- one round more than there are bytes, is never used up.
  pub server_read-InTime : (input : List ℕ) (w : World D) → InTime (server_read q sys input w)
  unfolding server_read
  server_read-InTime input w = (read_loop-Ends (length input + 1) input (omega arith)).ends w

  -- A live client that is deleted has lost its connection.
  disconnected :
      (w : World D)
      → w.clnt.deleted ≡ false
      → Ensures (client_delete q w) (λ _ w'. w'.clnt.bev ≡ false)
  unfolding client_delete free_unreferenced delete_live release
  disconnected w live = rw (live, client_delete) (ground arith)

  disconnect_packet :
      (m : ℕ → ℕ) (e : ℕ) (w : World D)
      → w.clnt.portcheck_finished ≡ true
      → process_packet q sys m e Op.disconnect w ≡ (client_delete q >> pure true) w
  unfolding process_packet dispatch
  disconnect_packet m e w checked = rw (checked, process_packet) refl

  drained :
      (w : World D) (next : Unit {0} → M D (Option (List ℕ)))
      → w.clnt.bev ≡ false
      → (drain q sys >>= next) w ≡ fault use_after_free
  unfolding drain
  drained w next h = rw (h, drain) refl

  -- What the loop does after the packet.
  then_drained :
      (r : Res (Unit {0} × World D)) (w : World D) (next : Unit {0} → M D (Option (List ℕ)))
      (stop : M D (Option (List ℕ)))
      → client_delete q w ≡ r
      → Ensures r (λ _ w'. w'.clnt.bev ≡ false)
      → ((client_delete q >> pure true) >>= (λ ret. if ret then (drain q sys >>= next) else stop)) w
        ≡ fault use_after_free
  then_drained (ok (_, w')) w next stop eq lost = rw (eq, ◌>>=◌, ◌>>◌) (drained w' next lost)
  then_drained (fault f) w next stop eq lost = absurd lost

  first_packet :
      (fuel : ℕ) (rest : List ℕ) (w : World D)
      → w.clnt.deleted ≡ false
      → let input = proto_edonkey ∷ 1 ∷ 0 ∷ 0 ∷ 0 ∷ Op.disconnect ∷ rest in
        read_loop q sys (suc fuel) input w
        ≡ (process_packet q sys
                (λ i. place (Op.disconnect ∷ rest) sys.beyond (i + 1))
                0
                Op.disconnect
              >>= (λ ret.
                  if ret
                  then (drain q sys >>= λ _. read_loop q sys fuel rest)
                  else pure (some input)))
            w
  unfolding read_loop process_body place
  first_packet fuel rest w live =
      let input = proto_edonkey ∷ 1 ∷ 0 ∷ 0 ∷ 0 ∷ Op.disconnect ∷ rest in
      let more : leb (length input) 5 ≡ false = ground arith in
      let whole : ltb (length input) 6 ≡ false = ground arith in
      if_false (w.clnt.deleted || leb (length input) 5) _ _ (rw (live, more) refl)
      ∙ if_false (ltb (length input) 6) _ _ whole

  -- A client that is logged in, and sends OP_DISCONNECT, is deleted together with its connection;
  -- the loop then takes the packet out of the input buffer that went with it.
  pub server_read-disconnect :
      (rest : List ℕ) (w : World D)
      → w.clnt.portcheck_finished ≡ true
      → w.clnt.deleted ≡ false
      → server_read q sys (proto_edonkey ∷ 1 ∷ 0 ∷ 0 ∷ 0 ∷ Op.disconnect ∷ rest) w
        ≡ fault use_after_free
  unfolding server_read read_loop process_body place
  server_read-disconnect rest w checked live =
      let input = proto_edonkey ∷ 1 ∷ 0 ∷ 0 ∷ 0 ∷ Op.disconnect ∷ rest in
      let count : suc (length input) ≡ length input + 1 = omega arith in
      let body = λ (i : ℕ). place (Op.disconnect ∷ rest) sys.beyond (i + 1) in
      subst (λ n. read_loop q sys n input w ≡ fault use_after_free) count
        (first_packet (length input) rest w live
          ∙ bind_at (process_packet q sys body 0 Op.disconnect) (client_delete q >> pure true) _ w
              (disconnect_packet body 0 w checked)
          ∙ then_drained _ w (λ _. read_loop q sys (length input) rest) (pure (some input)) refl
              (disconnected w live))

  -- A client that has an id and logs in again is deleted, and is then sent the welcome message over
  -- the connection that it no longer has.
  pub login_case_again :
      (m : ℕ → ℕ) (e : ℕ) (w : World D)
      → w.clnt.id ≢ 0
      → w.clnt.deleted ≡ false
      → login_case q sys m e w ≡ fault null_bev
  unfolding login_case client_delete write
  login_case_again m e w id live = ground arith
