-- ===== src/Portcheck/Answer.antt =====
-- What ends a port check of src/portcheck.c.
use ed2kd.Base.{
  ℕ, ◌<◌, ◌≡◌, refl, ap, Bool, true, false, List, some, inl, inr, ◌==◌, ◌&&◌, block, eqb→eq, ==_iff,
  ltb→lt, Bool-cases,
}
use ed2kd.Proto.{ed2k_hash_size}
use ed2kd.Proto.Op
use ed2kd.State.{Client, World, System, Res, ok, fault}
use ed2kd.Db.{Sqlite}
use ed2kd.Portcheck.{
  process_hello_answer, process_packet, portcheck_read, portcheck_timeout, portcheck_event,
}

and_true : (a b : Bool) → a && b ≡ true → (a ≡ true) × (b ≡ true)
and_true true b h = (refl, h)
and_true false b h = cc

-- Is the check over in the world that a handler leaves?
abbrev over : {D : Type 0} → Res (Bool × World D) → Bool
over (ok (ret, w)) = w.clnt.portcheck_finished
over (fault f) = false

same_world :
    {D : Type 0} (ret ret' : Bool) (w w' : World D)
    → ◌≡◌ {A = Res (Bool × World D)} (ok (ret, w)) (ok (ret', w'))
    → w.clnt.portcheck_finished ≡ w'.clnt.portcheck_finished
same_world {D} ret ret' w w' h = ap (over {D = D}) h

module _ {D : Type 0} (q : Sqlite D) (sys : System) where
  -- When the check is over, nothing that still arrives for it has an effect: not its input, not its
  -- timer, not an event of its connection.
  pub portcheck_finished_ignores :
      (w : World D) (input : List ℕ) (ended connected : Bool)
      → w.clnt.portcheck_finished ≡ true
      → (portcheck_read q sys input w ≡ ok (some input, w))
        × (portcheck_timeout q sys w ≡ ok (tt, w))
        × (portcheck_event q sys ended connected w ≡ ok (tt, w))
  unfolding portcheck_read portcheck_timeout portcheck_event
  portcheck_finished_ignores w input ended connected over =
      (rw over refl, rw over refl, rw over refl)

  accepted :
      (m : ℕ → ℕ) (e opcode : ℕ) (c : Client)
      → (opcode == Op.helloanswer) ≡ true
      → process_hello_answer q sys m e c ≡ true
      → (opcode ≡ Op.helloanswer) × (ed2k_hash_size < e) × (c.hash ≡ block m 0 ed2k_hash_size)
  unfolding process_hello_answer
  accepted m e opcode c hello h =
      let (longer, same) = and_true _ _ h in
      ((==_iff opcode Op.helloanswer).0 hello, ltb→lt ed2k_hash_size e longer, eqb→eq _ _ same)

  -- If process_packet itself ends a check which was not over, then the packet is the answer to the
  -- hello, is longer than a hash, and begins with the hash that the client logged in with. (For a
  -- packet that it does not accept, portcheck_read ends the check as failed.)
  process_packet-highid :
      (m : ℕ → ℕ) (e opcode : ℕ) (w w' : World D) (ret : Bool)
      → process_packet q sys m e opcode w ≡ ok (ret, w')
      → w.clnt.portcheck_finished ≡ false
      → w'.clnt.portcheck_finished ≡ true
      → (opcode ≡ Op.helloanswer) × (ed2k_hash_size < e) × (w.clnt.hash ≡ block m 0 ed2k_hash_size)
  unfolding process_packet
  process_packet-highid m e opcode w w' ret h before after =
      elim (Bool-cases (opcode == Op.helloanswer)) [
        | inl hello ↦ elim (Bool-cases (process_hello_answer q sys m e w.clnt)) [
          | inl answer ↦ accepted m e opcode w.clnt hello answer
          | inr other ↦
              let kept = same_world false ret w w' (rw (hello, other, process_packet) at h) in cc
        ]
        | inr other ↦ let kept = same_world true ret w w' (rw (other, process_packet) at h) in cc
      ]
