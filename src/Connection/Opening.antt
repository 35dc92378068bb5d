-- ===== src/Connection/Opening.antt =====
-- A Forward Open request that the target grants ends with an open connection.
use esp32_control_logix.Base.{
  ℕ, ◌^◌, ◌≤◌, ◌<◌, ◌≡◌, ◌≢◌, refl, ap, ◌∙◌, true, false, some, List, ◌++◌, length, take, take_all,
  drop, ltb, ◌==◌, if◌then◌else◌, arith,
}
use esp32_control_logix.Status.{Status, ok, pending}
use esp32_control_logix.Encapsulation.{u32_bytes, get_u32}
use esp32_control_logix.Encapsulation.Words.{get_u32-append, get_u32-append_front}
use esp32_control_logix.Encapsulation.Windows.{get_u32-window}
use esp32_control_logix.Transport.{Transport, IsTransport, Streams, expired, deadline_after}
use esp32_control_logix.Wire.{write_pending}
use esp32_control_logix.Wire.Ready.{IsReady}
use esp32_control_logix.Message
use esp32_control_logix.Message.{Message}
use esp32_control_logix.Message.Progress.{send_request}
use esp32_control_logix.Message.Reply.{FitsReply, response_frame}
use esp32_control_logix.Message.Completion.{Answered, send-fresh, poll-send}
use esp32_control_logix.Connection.{
  Connection, opening, open_state, manager_path, slice_of, open_data,
}
use esp32_control_logix.Connection.Calls.{
  open_connection, start_open, finish_open, opening_polled, poll_opening, poll,
}
use esp32_control_logix.Connection.Exchange.{IsConnection}
use esp32_control_logix.Connection.Forward.{
  open_frame, is_busy, open_data-IsRequest, request-open_frame, forwarded-pending,
}
use esp32_control_logix.Connection.Reply.{get_u32-u32_bytes}

-- The data of a grant: the O->T id, the T->O id, and the rest of the answer.
abbrev pub grant : ℕ → ℕ → List ℕ → List ℕ
grant ot to rest = u32_bytes ot ++ (u32_bytes to ++ rest)

-- A connection that is open under the two ids.
pub record IsOpen (ot to : ℕ) (st : Status) (c : Connection) : Type 0 where
  pub all_ok : st ≡ ok
  pub is_open : c.state ≡ open_state
  pub same_ot : c.ot_conn_id ≡ ot
  pub granted_to : c.to_conn_id ≡ to

-- The O->T id that the connection asks for.
abbrev pub asked_id : ℕ → ℕ
asked_id r = if r == 0 then 1 else r

module _ (ot to : ℕ) (rest rx : List ℕ) (ot_fits : ot < 2 ^ 32) (to_fits : to < 2 ^ 32)
    (there : take (length (grant ot to rest)) (drop 44 rx) ≡ grant ot to rest) where
  ot_read : get_u32 rx 44 ≡ ot
  ot_read =
      get_u32-window rx (grant ot to rest) 44 there 0 (omega arith)
      ∙ get_u32-append_front (u32_bytes ot) (u32_bytes to ++ rest) (omega arith)
      ∙ get_u32-u32_bytes ot ot_fits

  to_read : get_u32 rx 48 ≡ to
  to_read =
      get_u32-window rx (grant ot to rest) 44 there 4 (omega arith)
      ∙ get_u32-append (u32_bytes ot) (u32_bytes to ++ rest)
      ∙ get_u32-append_front (u32_bytes to) rest (omega arith)
      ∙ get_u32-u32_bytes to to_fits

finish_open-IsOpen :
    {W : Type 0} (t : Transport W) (c : Connection) (service to : ℕ) (rest : List ℕ)
    → c.ot_conn_id < 2 ^ 32
    → c.ot_conn_id ≢ 0
    → to < 2 ^ 32
    → to ≢ 0
    → 4 ≤ length rest
    → Answered service 0 (grant c.ot_conn_id to rest) ok c.fwd
    → let fin = finish_open t c in IsOpen c.ot_conn_id to fin.0 fin.1
unfolding finish_open
finish_open-IsOpen t c service to rest ot_fits ot_set to_fits to_set long a =
    let ot = ot_read c.ot_conn_id to rest c.fwd.wire.rx ot_fits to_fits a.data_read in
    let target = to_read c.ot_conn_id to rest c.fwd.wire.rx ot_fits to_fits a.data_read in
    let enough : ltb c.fwd.response_len 12 ≡ false = ground (arith, a.data_length, long) in
    let ot_kept : (c.ot_conn_id == 0) ≡ false = ground (arith, ot_set) in
    let to_kept : (to == 0) ≡ false = ground (arith, to_set) in
    let same : (c.ot_conn_id == c.ot_conn_id) ≡ true = ground arith in
    rw (a.code_read, enough, a.data_place, ot, target, ot_kept, to_kept, same)
      (record { all_ok = refl; is_open = refl; same_ot = refl; granted_to = refl })

module _ {W : Type 0} (t : Transport W) where
  opening_polled-IsOpen :
      (c : Connection) (out : Status × Message × W) (service to : ℕ) (rest : List ℕ)
      → c.ot_conn_id < 2 ^ 32
      → c.ot_conn_id ≢ 0
      → to < 2 ^ 32
      → to ≢ 0
      → 4 ≤ length rest
      → Answered service 0 (grant c.ot_conn_id to rest) out.0 out.1
      → let fin = opening_polled t c out in IsOpen c.ot_conn_id to fin.0 fin.1 × (fin.2 ≡ out.2)
  opening_polled-IsOpen c (ok, m, w) service to rest ot_fits ot_set to_fits to_set long a =
      let c' : Connection = record c { fwd = m } in
      (finish_open-IsOpen t c' service to rest ot_fits ot_set to_fits to_set long a, refl)
  opening_polled-IsOpen c (pending, m, w) service to rest ot_fits ot_set to_fits to_set long a =
      ground (arith, a.all_ok)
  opening_polled-IsOpen c (st, m, w) service to rest ot_fits ot_set to_fits to_set long a =
      ground (arith, a.all_ok)

  -- The connection once its `open` is accepted, with the message that asks for it.
  abbrev pub asking : Connection → ℕ → List ℕ → Message → Connection
  asking c r name m = record c {
    fwd = m;
    state = opening;
    ot_conn_id = asked_id r;
    to_conn_id = 0;
    tag_name = name;
  }

  open-asking :
      (c : Connection) (w : W) (session : ℕ) (name : List ℕ) (timeout_ms : ℕ)
      → is_busy c.state ≡ false
      → length name < 64
      → let (r, w1) = t.random w in
        let (st, m1, w2) =
          Message.send t c.fwd w1 session 0x54 manager_path
            (slice_of (open_data (asked_id r) name))
            timeout_ms in
        st ≡ pending
        → open_connection t c w session (some name) timeout_ms ≡ (pending, asking c r name m1, w2)
  unfolding open_connection start_open
  open-asking c w session name timeout_ms free short goes =
      let (r, w1) = t.random w in
      let out =
        Message.send t c.fwd w1 session 0x54 manager_path (slice_of (open_data (asked_id r) name))
          timeout_ms in
      let opened : Connection = record c {
        ot_conn_id = asked_id r;
        to_conn_id = 0;
        tag_name = name;
      } in
      let accepted = forwarded-pending t opened opening out goes in
      let whole = take_all 63 name (omega (arith, short)) in
      ground (arith, free, short, whole, accepted)

  -- An `open` that is accepted has only read the clock and a random number.
  pub open-clock :
      (c : Connection) (w : W) (session : ℕ) (name : List ℕ) (timeout_ms : ℕ)
      → IsConnection c
      → is_busy c.state ≡ false
      → Message.is_sending c.fwd.state ≡ false
      → t.connected (t.random w).1 ≡ true
      → length name < 64
      → (open_connection t c w session (some name) timeout_ms).2 ≡ (t.millis (t.random w).1).1
  open-clock c w session name timeout_ms h free idle up short =
      let (random, w1) = t.random w in
      let q = open_data-IsRequest (asked_id random) name short in
      let data_slice = slice_of (open_data (asked_id random) name) in
      let started =
        send_request t c.fwd w1 session 0x54 manager_path data_slice timeout_ms h.forward idle up
          q in
      let begun = open-asking c w session name timeout_ms free short started.0 in
      let fresh = send-fresh t c.fwd w1 session 0x54 manager_path data_slice timeout_ms idle up q in
      ap (λ r. r.2) begun ∙ fresh.1

  -- From a state in which the stream moves bytes at both ends and goes on so (`IsReady`), a
  -- connection opens: where no request is in flight, `open` for a tag of less than 64 characters
  -- and then `poll` before the deadline put exactly the Forward Open packet on the stream, with an
  -- O->T id other than 0, and where a successful answer with the same O->T id, a T->O id other than
  -- 0 and four bytes more at least can then be read, they end with `Ok` and a connection that is
  -- open under the two ids, and leave what follows the answer unread.
  pub poll-open_connection :
      IsTransport t
      → (s : Streams t) {on : W → Type 0} → IsReady s on
      → (c : Connection) (w : W) (session : ℕ) (name : List ℕ) (timeout_ms : ℕ) → IsConnection c
      → on w
      → is_busy c.state ≡ false
      → Message.is_sending c.fwd.state ≡ false
      → t.connected (t.random w).1 ≡ true
      → length name < 64
      → (handle service to : ℕ) (rest more : List ℕ) → to < 2 ^ 32
      → to ≢ 0
      → 4 ≤ length rest
      → (let ot = asked_id (t.random w).0 in
          FitsReply handle c.fwd.context service 0 (grant ot to rest))
      → let (st, c1, w2) = open_connection t c w session (some name) timeout_ms in
        expired (t.millis w2).0 (deadline_after (t.millis (t.random w).1).0 timeout_ms) ≡ false
        → (let out = write_pending t c1.fwd.wire (t.millis w2).1 in
            let ot = asked_id (t.random w).0 in
            s.unread out.2
            ≡ response_frame handle c.fwd.context service 0 (grant ot to rest) ++ more)
        → let (st2, c2, w3) = poll t c1 w2 in
          let ot = asked_id (t.random w).0 in
          (ot ≢ 0)
          × IsOpen ot to st2 c2
          × (s.sent w3 ≡ s.sent w ++ open_frame session c.fwd.context ot name)
          × (s.unread w3 ≡ more)
  unfolding poll poll_opening
  poll-open_connection ht s r c w session name timeout_ms h o free idle up short handle service to
        rest more to_fits to_set long v =
      let (random, w1) = t.random w in
      let ot = asked_id random in
      let ot_set : ot ≢ 0 = ground arith in
      let ot_fits : ot < 2 ^ 32 = ground (arith, ht.random_u32 w) in
      let q = open_data-IsRequest ot name short in
      let data_slice = slice_of (open_data ot name) in
      let started =
        send_request t c.fwd w1 session 0x54 manager_path data_slice timeout_ms h.forward idle up
          q in
      let begun = open-asking c w session name timeout_ms free short started.0 in
      rw begun (λ early there.
        let (_, m1, w2) = Message.send t c.fwd w1 session 0x54 manager_path data_slice timeout_ms in
        let (a, moved, left) =
          poll-send t ht s r handle c.fwd.context service 0 (grant ot to rest) more v c.fwd w1
            session 0x54 manager_path data_slice timeout_ms h.forward (r.random_on w o) idle refl up
            q early there in
        let (is_open, world) =
          opening_polled-IsOpen (asking c random name m1) (Message.poll t m1 w2) service to rest
            ot_fits ot_set to_fits to_set long a in
        (
          ot_set,
          is_open,
          ap s.sent world
              ∙ moved
              ∙ ap (λ xs. s.sent w1 ++ xs) (request-open_frame session c.fwd.context ot name short)
              ∙ ap (λ xs. xs ++ open_frame session c.fwd.context ot name) (r.random_sent w),
          ap s.unread world ∙ left,
        ))
