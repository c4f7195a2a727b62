-- ===== src/Dispatch/Reject.antt =====
-- src/server.c: process_packet and the packets that it refuses.
use ed2kd.Base.{ℕ, ◌≡◌, Bool, true, false, arith, inl, inr, ◌==◌, ◌||◌, if◌then◌else◌}
use mathlib.Core.Path.{subst}
use ed2kd.Proto.Op
use ed2kd.State.{Res-cases, World, System, M, Res, ok, fault, ◌>>=◌, pure, get}
use ed2kd.Db.{Sqlite}
use ed2kd.Client.{client_delete}
use ed2kd.Dispatch.{
  drop_client, checked, login_case, search_case, offer_case, dispatch, process_packet,
}

-- The client is deleted if the result is 0.
abbrev Rejected : {D : Type 0} → Res (Bool × World D) → Type 0
Rejected (ok (true, w)) = Unit
Rejected (ok (false, w)) = w.clnt.deleted ≡ true
Rejected (fault f) = Unit

-- A handler that deletes the client whenever its result is 0.
record Rejects {D : Type 0} (f : M D Bool) : Type 0 where
  rejects : (w : World D) → Rejected (f w)

Rejects->>= :
    {D A : Type 0} (f : M D A) (g : A → M D Bool) → ((a : A) → Rejects (g a)) → Rejects (f >>= g)
Rejects->>= f g hg = record {
  rejects = λ w. elim (Res-cases (f w)) [
    | inl (a, t, eq) ↦ rw (eq, ◌>>=◌, Rejected) ((hg a).rejects t)
    | inr (e, eq) ↦ rw (eq, ◌>>=◌, Rejected) tt
  ];
}

Rejects-if :
    {D : Type 0} (b : Bool) (f g : M D Bool) → Rejects f → Rejects g → Rejects (if b then f else g)
Rejects-if true f g hf hg = hf
Rejects-if false f g hf hg = hg

Rejects-pure : {D : Type 0} → Rejects {D = D} (pure true)
Rejects-pure = record { rejects = λ w. tt }

module _ {D : Type 0} (q : Sqlite D) (sys : System) where
  drop_rejects : (w : World D) → Rejected (drop_client q sys w)
  unfolding drop_client client_delete
  drop_rejects w = ground arith

  Rejects-drop_client : Rejects (drop_client q sys)
  Rejects-drop_client = record { rejects = drop_rejects }

  Rejects-checked : (f : M D Bool) → Rejects (checked q sys f)
  unfolding checked
  Rejects-checked f = Rejects->>= f _ (λ done. Rejects-if done _ _ Rejects-pure Rejects-drop_client)

  Rejects-login_case : (m : ℕ → ℕ) (e : ℕ) → Rejects (login_case q sys m e)
  unfolding login_case
  Rejects-login_case m e = search (Rejects->>=, Rejects-checked) depth 9

  Rejects-search_case : (m : ℕ → ℕ) (e : ℕ) → Rejects (search_case q sys m e)
  unfolding search_case
  Rejects-search_case m e =
      search (Rejects->>=, Rejects-if, Rejects-pure, Rejects-drop_client) depth 9

  Rejects-offer_case : (m : ℕ → ℕ) (e : ℕ) → Rejects (offer_case q sys m e)
  unfolding offer_case
  Rejects-offer_case m e =
      search (Rejects->>=, Rejects-if, Rejects-checked, Rejects-drop_client) depth 9

  Rejects-dispatch : (m : ℕ → ℕ) (e opcode : ℕ) → Rejects (dispatch q sys m e opcode)
  unfolding dispatch
  Rejects-dispatch m e opcode =
      search
        (
          Rejects->>=, Rejects-if, Rejects-pure, Rejects-drop_client, Rejects-login_case,
          Rejects-search_case, Rejects-offer_case,
        )
        depth 20

  -- A packet for which process_packet returns 0 has had its client deleted, whatever the reason.
  pub process_packet_rejected :
      (m : ℕ → ℕ) (e opcode : ℕ) (w w' : World D)
      → process_packet q sys m e opcode w ≡ ok (false, w')
      → w'.clnt.deleted ≡ true
  unfolding process_packet
  process_packet_rejected m e opcode w w' h = subst Rejected h (
      (Rejects->>= get _ (λ w.
          Rejects-if (w.clnt.portcheck_finished || Op.loginrequest == opcode) _ _
            (Rejects-dispatch m e opcode) Rejects-drop_client)).rejects
        w)
