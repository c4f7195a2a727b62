-- ===== src/Eb/Main/Run.antt =====
-- eb/src/main.c: the event loop that main starts.
use ed2kd.Base.{◌<◌, ◌≡◌, false}
use ed2kd.Base.Int.{pos_part}
use ed2kd.Eb.{EbInstance}
use ed2kd.Eb.Instance.{select_actions}
use ed2kd.Eb.Bench.{Bench}
use ed2kd.Eb.Main.{Line}

-- What main has made of the options when it starts the event loop.
record IsStarted (l : Line) (eb : EbInstance) : Type 0 where
  clients : (eb.client_cnt ≡ pos_part l.client_cnt) × (0 < eb.client_cnt)
  nobody : eb.running_cnt ≡ 0
  in_loop : eb.broken ≡ false
  actions :
      eb.actions
      ≡ (select_actions l.offer_flag l.query_flag l.source_flag (pos_part l.repeat_cnt)).0
  repeats :
      eb.repeat_cnt
      ≡ (select_actions l.offer_flag l.query_flag l.source_flag (pos_part l.repeat_cnt)).1
