-- ===== src/Tag/Completion.antt =====
-- A tag that is read holds the values of the answer.
use esp32_control_logix.Base.{
  ℕ, ◌-◌, ◌^◌, ◌≤◌, ◌<◌, ◌≡◌, refl, sym, ap, ◌∙◌, true, false, some, List, [], ◌++◌, length, take,
  drop, drop-drop, drop-take, take-store_start, store, min, leb, arith,
}
use esp32_control_logix.Status.{Status, pending, ok}
use esp32_control_logix.Encapsulation.{u16_bytes, get_u16}
use esp32_control_logix.Encapsulation.Words.{get_u16-u16_bytes}
use esp32_control_logix.Cip.{max_symbolic_name, tag_service_code, read_tag}
use esp32_control_logix.Transport.{Transport, IsTransport, Streams, expired, deadline_after}
use esp32_control_logix.Wire.{write_pending}
use esp32_control_logix.Wire.Ready.{IsReady}
use esp32_control_logix.Encapsulation.Windows.{get_u16-window}
use esp32_control_logix.Message.{Message, is_sending, send}
use esp32_control_logix.Message
use esp32_control_logix.Message.Exchange.{IsMessage}
use esp32_control_logix.Message.Progress.{send_request}
use esp32_control_logix.Message.Reply.{FitsReply, response_frame}
use esp32_control_logix.Message.Completion.{Answered, send-fresh, poll-send}
use esp32_control_logix.Tag.{
  Tag, reading, done, is_busy, max_data_size, path_of, read, start_read, finish, polled, poll,
}
use esp32_control_logix.Tag.Packets.{read_frame, count_slice, path-IsRequest, request-read_frame}

-- A tag that has been read: its buffer starts with the values.
pub record IsRead (type : ℕ) (values : List ℕ) (st : Status) (tag : Tag) : Type 0 where
  pub all_ok : st ≡ ok
  pub is_done : tag.state ≡ done
  pub values_length : tag.payload_len ≡ length values
  pub values_read : take (length values) tag.payload ≡ values
  pub type_read : tag.data_type ≡ type
  pub no_code : tag.result_code ≡ 0

module _ (type : ℕ) (values rx : List ℕ) where
  abbrev result : List ℕ
  result = u16_bytes type ++ values

  type_result : type < 2 ^ 16 → take (length result) (drop 44 rx) ≡ result → get_u16 rx 44 ≡ type
  type_result small e =
      get_u16-window rx result 44 e 0 (omega arith) ∙ get_u16-u16_bytes [] values type small

  data_result :
      take (length result) (drop 44 rx) ≡ result → take (length values) (drop 46 rx) ≡ values
  data_result e =
      let two : length result - 2 ≡ length values = omega arith in
      ap (λ (k : ℕ). take k (drop 46 rx)) (sym two)
      ∙ ap (take (length result - 2)) (sym (drop-drop 44 2 rx))
      ∙ sym (drop-take 2 (length result) (drop 44 rx))
      ∙ ap (drop 2) e

finish-IsRead :
    {W : Type 0} (t : Transport W) (tag : Tag) (m : Message) (service type : ℕ) (values : List ℕ)
    → tag.state ≡ reading
    → length tag.payload ≡ max_data_size
    → type < 256
    → length values ≤ 250
    → Answered service 0 (u16_bytes type ++ values) ok m
    → let fin = finish t tag m in IsRead type values fin.0 fin.1
unfolding finish
finish-IsRead t tag m service type values e room small short a =
    let rx = m.wire.rx in
    let kind = type_result type values rx (omega arith) a.data_read in
    let bytes = data_result type values rx a.data_read in
    let n : min (m.response_len - 2) max_data_size ≡ length values = omega (arith, a.data_length) in
    let stored : take (length values) (store tag.payload 0 values) ≡ values =
      take-store_start tag.payload values (omega (arith, room)) in
    let long : leb 2 m.response_len ≡ true = ground (arith, a.data_length) in
    rw (e, a.code_read, a.data_place, long, n, bytes)
      (record {
        all_ok = refl;
        is_done = refl;
        values_length = refl;
        values_read = stored;
        type_read = omega (arith, kind);
        no_code = refl;
      })

-- A tag once its read has started.
abbrev pub reading_tag : Tag → Tag
reading_tag tag = record tag { payload_len = 0; result_code = 0; state = reading }

module _ {W : Type 0} (t : Transport W) where
  read-started :
      (tag : Tag) (m : Message) (w : W) (session : ℕ) (name : List ℕ) (n timeout_ms : ℕ)
      → is_busy tag.state ≡ false
      → length name ≤ max_symbolic_name
      → let (st, m1, w1) =
          send t m w session
            (tag_service_code read_tag)
            (path_of name)
            (count_slice n)
            timeout_ms in
        st ≡ pending
        → read t tag m w session (some name) n timeout_ms ≡ (pending, reading_tag tag, m1, w1)
  unfolding read start_read
  read-started tag m w session name n timeout_ms free short goes = ground (arith, free, goes)

  -- A read that is accepted has only read the clock.
  pub read-begins :
      (tag : Tag) (m : Message) (w : W) (session : ℕ) (name : List ℕ) (n timeout_ms : ℕ)
      → is_busy tag.state ≡ false
      → length name ≤ max_symbolic_name
      → IsMessage m
      → is_sending m.state ≡ false
      → t.connected w ≡ true
      → let (st, tag1, m1, w1) = read t tag m w session (some name) n timeout_ms in
        (st ≡ pending) × (w1 ≡ (t.millis w).1)
  read-begins tag m w session name n timeout_ms free short h idle up =
      let q = path-IsRequest name short n in
      let started =
        send_request t m w session (tag_service_code read_tag) (path_of name) (count_slice n)
          timeout_ms h idle up q in
      let fresh =
        send-fresh t m w session (tag_service_code read_tag) (path_of name) (count_slice n)
          timeout_ms idle up q in
      let begun = read-started tag m w session name n timeout_ms free short started.0 in
      (ap (λ r. r.0) begun, ap (λ r. r.3) begun ∙ fresh.1)

  polled-IsRead :
      (tag : Tag) (out : Status × Message × W) (service type : ℕ) (values : List ℕ)
      → tag.state ≡ reading
      → length tag.payload ≡ max_data_size
      → type < 256
      → length values ≤ 250
      → Answered service 0 (u16_bytes type ++ values) out.0 out.1
      → let fin = polled t tag out in
        IsRead type values fin.0 fin.1 × (fin.2 ≡ out.1) × (fin.3 ≡ out.2)
  polled-IsRead tag (ok, m, w) service type values e room small short a =
      (finish-IsRead t tag m service type values e room small short a, refl, refl)
  polled-IsRead tag (pending, m, w) service type values e room small short a =
      ground (arith, a.all_ok)
  polled-IsRead tag (st, m, w) service type values e room small short a = ground (arith, a.all_ok)

  -- From a state in which the stream moves bytes at both ends and goes on so (`IsReady`), a tag is
  -- read: `read` and then `poll` before the deadline put exactly the Read Tag packet with the tag's
  -- name and the element count on the stream, and where the successful answer of the target with a
  -- data type and at most 250 bytes of values can then be read, they end with `Ok` and those values
  -- and that type in the tag, and leave what follows the answer unread.
  pub poll-read :
      IsTransport t
      → (s : Streams t) {on : W → Type 0} → IsReady s on
      → (tag : Tag) (m : Message) (w : W) (session : ℕ) (name : List ℕ) (n timeout_ms : ℕ) → on w
      → is_busy tag.state ≡ false
      → length tag.payload ≡ max_data_size
      → length name ≤ max_symbolic_name
      → IsMessage m
      → is_sending m.state ≡ false
      → t.connected w ≡ true
      → (handle service type : ℕ) (values more : List ℕ) → type < 256
      → FitsReply handle m.context service 0 (u16_bytes type ++ values)
      → let (st, tag1, m1, w1) = read t tag m w session (some name) n timeout_ms in
        expired (t.millis w1).0 (deadline_after (t.millis w).0 timeout_ms) ≡ false
        → (let out = write_pending t m1.wire (t.millis w1).1 in
            s.unread out.2
            ≡ response_frame handle m.context service 0 (u16_bytes type ++ values) ++ more)
        → let (st2, tag2, m2, w2) = poll t tag1 m1 w1 in
          IsRead type values st2 tag2
          × (s.sent w2 ≡ s.sent w ++ read_frame session m.context name n)
          × (s.unread w2 ≡ more)
  unfolding poll
  poll-read ht s r tag m w session name n timeout_ms o free room short h idle up handle service type
        values more small v =
      let path = path_of name in
      let q = path-IsRequest name short n in
      let started =
        send_request t m w session (tag_service_code read_tag) path (count_slice n) timeout_ms h
          idle up q in
      let begun = read-started tag m w session name n timeout_ms free short started.0 in
      let (st, m1, w1) =
        send t m w session (tag_service_code read_tag) path (count_slice n) timeout_ms in
      rw begun (λ early there.
        let (a, moved, left) =
          poll-send t ht s r handle m.context service 0 (u16_bytes type ++ values) more v m w
            session (tag_service_code read_tag) path (count_slice n) timeout_ms h o idle refl up q
            early there in
        let fin =
          polled-IsRead (reading_tag tag) (Message.poll t m1 w1) service type values refl room small
            (omega (arith, v.payload_room)) a in
        (
          fin.0,
          ap s.sent fin.2
              ∙ moved
              ∙ ap (λ xs. s.sent w ++ xs) (request-read_frame name short session m.context n),
          ap s.unread fin.2 ∙ left,
        ))
