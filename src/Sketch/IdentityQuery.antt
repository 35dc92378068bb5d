-- ===== src/Sketch/IdentityQuery.antt =====
-- examples/IdentityQuery/IdentityQuery.ino: attributes of the Identity object are read one by one.
-- What `printResult` prints of an answer is kept, as an entry of `shown`.
use esp32_control_logix.Base.{
  ℕ, ◌+◌, ◌≡◌, refl, not, ◌&&◌, none, some, List, [], ◌∷◌, ◌++◌, take, drop, replicate, get_or, ltb,
  leb, ◌==◌, if◌then◌else◌, arith,
}
use esp32_control_logix.Status.{Status, ok, timeout, error}
use esp32_control_logix.Encapsulation.{byte_at, get_u16, get_u32}
use esp32_control_logix.Cip.{append_class, append_instance, append_attribute}
use esp32_control_logix.Cip.Codes.{
  service_code, get_attribute_single, identity_vendor_id, identity_product_name,
  identity_serial_number, identity_state,
}
use esp32_control_logix.Network.{Network}
use esp32_control_logix.Session
use esp32_control_logix.Message
use esp32_control_logix.Message.{Message, Slice}
use esp32_control_logix.Sketch.Cycle
use esp32_control_logix.Sketch.Cycle.{Cycle, operate, close_session, retry_wait, enter}
use esp32_control_logix.Sketch.Cycle.Lifecycle.{IsCycle, loop-IsCycle, Starts, Works, Worked}

abbrev pub message_timeout_ms : ℕ
message_timeout_ms = 5000

-- The attributes of `kQueries`.
abbrev pub queries : List ℕ
queries = identity_vendor_id ∷ identity_product_name ∷ identity_serial_number ∷ identity_state ∷ []

abbrev pub query_count : ℕ
query_count = 4

pub data Shown : Type 0 where
  cip_status : ℕ → Shown
  number : ℕ → Shown
  text : List ℕ → Shown
  byte_count : ℕ → Shown

pub record Queries : Type 0 where
  pub msg : Message
  pub query_index : ℕ
  pub shown : List Shown

abbrev pub IdentityQuery : Type 0
IdentityQuery = Cycle Queries

-- `msg.data()`, as an offset.
abbrev response_offset : Message → ℕ
response_offset m = elim m.response [ none ↦ 0 | some p ↦ p ]

pub print_result : Message → ℕ → Shown
print_result m attr =
    let d = response_offset m in
    let n = m.response_len in
    if not (m.result_code == 0)
    then cip_status m.result_code
    else if attr == identity_vendor_id && leb 2 n
    then number (get_u16 m.wire.rx d)
    else if attr == identity_serial_number && leb 4 n
    then number (get_u32 m.wire.rx d)
    else if attr == identity_state && leb 1 n
    then number (byte_at m.wire.rx d)
    else if attr == identity_product_name
    then text (take n (drop d m.wire.rx))
    else byte_count n

-- The locals `path` and `data` of `startQuery`.
abbrev pub identity_path : Slice
identity_path =
    let (p1, n1) = append_class (replicate 4 0) 0 1 in
    let (p2, n2) = append_instance p1 n1 1 in record { bytes = some p2; len = n1 + n2 }

abbrev pub attribute_data : ℕ → Slice
attribute_data attr = record { bytes = some (append_attribute (replicate 2 0) 0 attr).0; len = 2 }

module _ {C W : Type 0} (net : Network C W) where
  open net use {transport as t}

  abbrev query_sent : IdentityQuery → Status × Message × W → IdentityQuery × W
  query_sent l r = (record l { work = record l.work { msg = r.1 } }, r.2)

  -- `startQuery(kQueries[queryIndex].attr)`.
  pub start_query : IdentityQuery → W → IdentityQuery × W
  start_query l w = query_sent l (
      Message.send t l.work.msg w l.session.handle (service_code get_attribute_single) identity_path
        (attribute_data (get_or queries l.work.query_index 0)) message_timeout_ms)

  pub start : IdentityQuery → W → IdentityQuery × W
  unfolding start_query
  start l w = start_query (record l { work = record l.work { query_index = 0 } }) w

  -- `case Phase::Query`, once `msg.poll()` returned `Ok`.
  pub finish_query : IdentityQuery → W → IdentityQuery × W
  unfolding start_query print_result
  finish_query l w =
      let result = print_result l.work.msg (get_or queries l.work.query_index 0) in
      let l1 : IdentityQuery = record l {
        work = record l.work {
          query_index = l.work.query_index + 1;
          shown = l.work.shown ++ (result ∷ []);
        };
      } in
      let (l2, w2) = start_query l1 w in
      let closing : IdentityQuery = record l1 { session = (Session.close l1.session).1 } in
      if ltb l1.work.query_index query_count
      then enter net l2 l2.phase w2
      else enter net closing close_session w

  abbrev query_polled : IdentityQuery → Status × Message × W → IdentityQuery × W
  query_polled l (ok, m, w) = finish_query (record l { work = record l.work { msg = m } }) w
  query_polled l (timeout, m, w) =
      enter net (record l { work = record l.work { msg = m } }) retry_wait w
  query_polled l (error, m, w) =
      enter net (record l { work = record l.work { msg = m } }) retry_wait w
  query_polled l (st, m, w) = (record l { work = record l.work { msg = m } }, w)

  pub query_step : IdentityQuery → W → IdentityQuery × W
  unfolding finish_query
  query_step l w = query_polled l (Message.poll t l.work.msg w)

  pub setup : C → IdentityQuery → W → IdentityQuery × W
  setup cfg l w = Cycle.setup net cfg l w

  pub loop : C → IdentityQuery → W → IdentityQuery × W
  unfolding start query_step
  loop cfg l w = Cycle.loop net cfg start query_step l w

  start-Starts : Starts start
  unfolding start start_query
  start-Starts = record { same_session = λ l w. refl }

  finish_query-Worked :
      (l : IdentityQuery) (w : W) → l.phase ≡ operate → Worked l (finish_query l w).0
  unfolding finish_query start_query
  finish_query-Worked l w e = ground arith

  query_polled-Worked :
      (l : IdentityQuery) (r : Status × Message × W)
      → l.phase ≡ operate
      → Worked l (query_polled l r).0
  query_polled-Worked l (ok, m, w) e =
      finish_query-Worked (record l { work = record l.work { msg = m } }) w e
  query_polled-Worked l (timeout, m, w) e = ground arith
  query_polled-Worked l (error, m, w) e = ground arith
  query_polled-Worked l (st, m, w) e = ground arith

  query_step-Works : Works query_step
  unfolding query_step
  query_step-Works = record {
    worked = λ l w e. query_polled-Worked l (Message.poll t l.work.msg w) e;
  }

  pub keeps-IsCycle : (cfg : C) (l : IdentityQuery) (w : W) → IsCycle l → IsCycle (loop cfg l w).0
  unfolding loop
  keeps-IsCycle cfg l w v =
      loop-IsCycle net cfg start query_step start-Starts query_step-Works l w v
