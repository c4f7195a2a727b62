-- ===== src/Eb/Instance.antt =====
-- eb/src/main.c: the timers and events of struct ebinstance, and the options of the command line.
use ed2kd.Base.{
  ℕ, zero, suc, ◌+◌, ◌-◌, ◌%◌, Bool, true, false, not, ◌&&◌, ◌||◌, List, [], ◌∷◌, ◌++◌, Option,
  none, some, if◌then◌else◌, ltb, ◌==◌, length,
}
use ed2kd.Eb.{Action, offer, query, EbClient, EbInstance, login_packet}

-- client_free, for one of the clients that are counted as running.
unfoldable pub client_free : EbInstance → EbInstance
client_free eb = record eb {
  running_cnt = eb.running_cnt - 1;
  broken = eb.broken || ((eb.running_cnt == 1) && (eb.client_cnt == 0));
}

-- What the timer of a client did: it acted, and started anew; or the client was freed.
pub data Acted : Type 0 where
  acted : Action → Acted
  freed : Acted

abbrev pub pick : List Action → ℕ → Action
pick [] n = offer
pick (a ∷ actions) zero = a
pick (a ∷ actions) (suc n) = pick actions n

-- timer_cb, with what rand gives.
unfoldable pub timer_cb : ℕ → EbInstance → Acted × EbInstance
unfolding client_free
timer_cb rand eb =
    if not (length eb.actions == 0) && not (eb.repeat_cnt == 0)
    then (
      acted (pick eb.actions (rand % length eb.actions)),
      record eb { repeat_cnt = eb.repeat_cnt - 1 },
    )
    else (freed, client_free eb)

-- event_cb: the client, whether it logged in, and the instance; `none` for a client that was freed.
-- `pad` is the byte of padding in a login.
-- The flags are `events & (BEV_EVENT_EOF | BEV_EVENT_ERROR)` and `events & BEV_EVENT_CONNECTED`.
unfoldable pub event_cb :
    Bool → Bool → ℕ → EbClient → EbInstance → Option (EbClient × List ℕ) × EbInstance
unfolding client_free login_packet
event_cb ended connects pad c eb =
    if ended
    then (none, client_free eb)
    else if connects
    then (some (record c { is_connected = true }, login_packet c.hash pad), eb)
    else (some (c, []), eb)

-- spawn_cb: the new client, if it could start to connect, whether the timer is set again, and the
-- instance, whose counters change in any case.
unfoldable pub spawn_cb : Bool → EbInstance → Option EbClient × Bool × EbInstance
spawn_cb connects eb =
    if ltb 0 eb.client_cnt
    then (
      (if connects
          then some (record {
            id = 0;
            hash = 0 ∷ 0 ∷ 0 ∷ 0 ∷ 0 ∷ 0 ∷ 0 ∷ 0 ∷ 0 ∷ 0 ∷ 0 ∷ 0 ∷ 0 ∷ 0 ∷ 0 ∷ 0 ∷ [];
            ev_action = false;
            is_connected = false;
          })
          else none),
      not (eb.client_cnt - 1 == 0),
      record eb { running_cnt = eb.running_cnt + 1; client_cnt = eb.client_cnt - 1 },
    )
    else (none, false, eb)

-- main, behind the command line: the array of actions, of which the first `action_cnt` count, and
-- the number of repetitions.
unfoldable pub select_actions : Bool → Bool → Bool → ℕ → List Action × ℕ
select_actions offer_flag query_flag source_flag repeat_cnt =
    let actions =
      (if offer_flag then offer ∷ [] else []) ++ (if query_flag then query ∷ [] else []) in
    (actions, if length actions == 0 then 0 else repeat_cnt)
