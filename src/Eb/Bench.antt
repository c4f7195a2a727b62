-- ===== src/Eb/Bench.antt =====
-- eb/src/main.c: the counters of struct ebinstance while clients come and go.
use ed2kd.Base.{
  ℕ, ◌+◌, ◌-◌, ◌<◌, ◌≡◌, ◌≢◌, ◌↔◌, refl, ◌∙◌, Bool, true, false, not, List, [], ◌∷◌, ltb, to_bit,
  arith, ◌||◌, ◌⊎◌, if◌then◌else◌,
}
use ed2kd.Eb.{source, EbClient, EbInstance}
use ed2kd.Eb.Instance.{
  Acted, acted, freed, client_free, timer_cb, event_cb, spawn_cb, select_actions,
}

-- What the event loop calls: the timer for the next client, the timer of a client, the end of a
-- client's connection, or signal_cb for SIGINT.
pub data Event : Type 0 where
  spawns : Bool → Event
  times : ℕ → Event
  ends : Event
  interrupts : Event

-- The instance, with the number of clients that there are, and of those whose connection could
-- not be started, and whether signal_cb has called event_base_loopexit.
pub record Bench : Type 0 where
  pub eb : EbInstance
  pub alive : ℕ
  pub lost : ℕ
  pub stopped : Bool

remaining : Acted → ℕ → ℕ
remaining (acted a) n = n
remaining freed n = n - 1

-- An event for a client happens only while there is one, and a spawn while the timer is set.
pub handle : EbClient → Event → Bench → Bench
unfolding spawn_cb timer_cb event_cb
handle c (spawns connects) b =
    if ltb 0 b.eb.client_cnt
    then record {
      eb = (spawn_cb connects b.eb).2;
      alive = b.alive + to_bit connects;
      lost = b.lost + to_bit (not connects);
      stopped = b.stopped;
    }
    else b
handle c (times rand) b =
    if ltb 0 b.alive
    then record b { eb = (timer_cb rand b.eb).1; alive = remaining (timer_cb rand b.eb).0 b.alive }
    else b
handle c ends b =
    if ltb 0 b.alive
    then record b { eb = (event_cb true false 0 c b.eb).1; alive = b.alive - 1 }
    else b
handle c interrupts b = record b { stopped = true }

pub handle_all : EbClient → List Event → Bench → Bench
handle_all c [] b = b
handle_all c (e ∷ events) b = handle_all c events (handle c e b)

-- The state in which main starts the event loop.
pub record IsFresh (b : Bench) : Type 0 where
  pub some_clients : 0 < b.eb.client_cnt
  pub nobody : (b.eb.running_cnt ≡ 0) × (b.alive ≡ 0) × (b.lost ≡ 0)
  pub in_loop : (b.eb.broken ≡ false) × (b.stopped ≡ false)

record Counts (b : Bench) : Type 0 where
  running : b.eb.running_cnt ≡ b.alive + b.lost
  over : b.eb.broken ≡ true → (b.eb.client_cnt ≡ 0) × (b.eb.running_cnt ≡ 0)
  ended : b.eb.client_cnt ≡ 0 → b.eb.running_cnt ≡ 0 → b.eb.broken ≡ true

handle-Counts : (c : EbClient) (e : Event) (b : Bench) → Counts b → Counts (handle c e b)
unfolding handle remaining spawn_cb timer_cb event_cb client_free
handle-Counts c (spawns connects) b inv = ground (arith, inv.running, inv.over, inv.ended)
handle-Counts c (times rand) b inv = ground (arith, inv.running, inv.over, inv.ended)
handle-Counts c ends b inv = ground (arith, inv.running, inv.over, inv.ended)
handle-Counts c interrupts b inv = record {
  running = inv.running;
  over = inv.over;
  ended = inv.ended;
}

handle_all-Counts :
    (c : EbClient) (events : List Event) (b : Bench) → Counts b → Counts (handle_all c events b)
unfolding handle_all
handle_all-Counts c [] b inv = inv
handle_all-Counts c (e ∷ events) b inv =
    handle_all-Counts c events (handle c e b) (handle-Counts c e b inv)

-- There has been a SIGINT.
abbrev pub interrupted : List Event → Bool
interrupted [] = false
interrupted (interrupts ∷ events) = true
interrupted (e ∷ events) = interrupted events

handle_all-stopped :
    (c : EbClient) (events : List Event) (b : Bench)
    → (handle_all c events b).stopped ≡ (b.stopped || interrupted events)
unfolding handle_all handle
handle_all-stopped c [] b = ground arith
handle_all-stopped c (spawns connects ∷ events) b =
    ground (arith, handle_all-stopped c events (handle c (spawns connects) b))
handle_all-stopped c (times rand ∷ events) b =
    ground (arith, handle_all-stopped c events (handle c (times rand) b))
handle_all-stopped c (ends ∷ events) b =
    ground (arith, handle_all-stopped c events (handle c ends b))
handle_all-stopped c (interrupts ∷ events) b =
    ground (arith, handle_all-stopped c events (handle c interrupts b))

-- The event loop has been told to end: by event_base_loopbreak or by event_base_loopexit.
abbrev pub leaves : Bench → Bool
leaves b = b.eb.broken || b.stopped

leaving :
    (b : Bench) (sigint : Bool)
    → b.stopped ≡ sigint
    → Counts b
    → (leaves b ≡ true) ↔ ((sigint ≡ true) ⊎ ((b.eb.client_cnt ≡ 0) × (b.alive ≡ 0) × (b.lost ≡ 0)))
leaving b sigint stop inv = ground (arith, stop, inv.running, inv.over, inv.ended)

-- Whatever happens from the start on, eb leaves its event loop exactly when there has been a SIGINT,
-- or every client has been spawned, none is left, and none of them failed to start its connection:
-- one that failed stays counted as running for ever.
pub handle_all-broken :
    (c : EbClient) (events : List Event) (b : Bench)
    → IsFresh b
    → let b' = handle_all c events b in
      (leaves b' ≡ true)
      ↔ ((interrupted events ≡ true) ⊎ ((b'.eb.client_cnt ≡ 0) × (b'.alive ≡ 0) × (b'.lost ≡ 0)))
handle_all-broken c events b fresh =
    let start : Counts b = ground (arith, fresh.some_clients, fresh.nobody, fresh.in_loop) in
    let inv = handle_all-Counts c events b start in
    let stop : (handle_all c events b).stopped ≡ interrupted events =
      ground (arith, handle_all-stopped c events b, fresh.in_loop) in
    leaving (handle_all c events b) (interrupted events) stop inv

handle-actions : (c : EbClient) (e : Event) (b : Bench) → ((handle c e b).eb.actions ≡ b.eb.actions)
unfolding handle spawn_cb timer_cb event_cb client_free
handle-actions c (spawns connects) b = ground arith
handle-actions c (times rand) b = ground arith
handle-actions c ends b = ground arith
handle-actions c interrupts b = refl

-- No event changes the actions.
pub handle_all-actions :
    (c : EbClient) (events : List Event) (b : Bench)
    → (handle_all c events b).eb.actions ≡ b.eb.actions
unfolding handle_all
handle_all-actions c [] b = refl
handle_all-actions c (e ∷ events) b =
    handle_all-actions c events (handle c e b) ∙ handle-actions c e b

-- Whichever actions are asked for on the command line, the timer never asks for sources; and if
-- nothing else was asked for, it frees its client at once.
pub timer_cb_no_source :
    (offer_flag query_flag source_flag : Bool) (repeat_cnt rand : ℕ) (eb : EbInstance)
    → eb.actions ≡ (select_actions offer_flag query_flag source_flag repeat_cnt).0
    → eb.repeat_cnt ≡ (select_actions offer_flag query_flag source_flag repeat_cnt).1
    → ((timer_cb rand eb).0 ≢ acted source)
      × (offer_flag ≡ false → query_flag ≡ false → (timer_cb rand eb).0 ≡ freed)
unfolding timer_cb select_actions
timer_cb_no_source o p s repeat_cnt rand eb h k = ground (arith, h, k)
