-- ===== src/Tag/Written.antt =====
-- A tag that is written: the packet of the request, and the end of the exchange.
use esp32_control_logix.Base.{
  ℕ, ◌+◌, ◌%◌, ◌^◌, ◌≤◌, ◌≡◌, ◌≢◌, refl, sym, ap, ◌∙◌, true, false, some, List, [], ◌∷◌, ◌++◌,
  length, length-take, take, replicate, take-store_start, store, store-append, arith, ◌==◌,
}
use esp32_control_logix.Status.{Status, pending, ok}
use esp32_control_logix.Encapsulation.{send_rr_data, u16_bytes, put_u16}
use esp32_control_logix.Cip.{
  null_address, unconnected_data, max_symbolic_name, tag_service_code, write_tag,
}
use esp32_control_logix.Cip.Symbolic.{symbolic_bytes}
use esp32_control_logix.Packet.{item, frame, cip_request}
use esp32_control_logix.Transport.{Transport, IsTransport, Streams, expired, deadline_after}
use esp32_control_logix.Wire.{write_pending}
use esp32_control_logix.Wire.Ready.{IsReady}
use esp32_control_logix.Message.{Message, Slice, is_sending, send}
use esp32_control_logix.Message
use esp32_control_logix.Message.Request.{content, request_frame}
use esp32_control_logix.Message.Exchange.{IsMessage}
use esp32_control_logix.Message.Progress.{send_request}
use esp32_control_logix.Message.Reply.{FitsReply, response_frame}
use esp32_control_logix.Message.Completion.{Answered, send-fresh, poll-send}
use esp32_control_logix.Tag.{
  Tag, writing, done, is_busy, max_data_size, path_of, write_length, write_data, write, start_write,
  finish, polled, poll,
}
use esp32_control_logix.Tag.Packets.{path-content, tag-IsRequest}

-- A Write Tag request: the service on the tag's symbolic path, with the number of elements, the
-- data type and the data.
abbrev pub write_frame : ℕ → ℕ → List ℕ → ℕ → ℕ → List ℕ → List ℕ
write_frame session context name element_count type values = frame send_rr_data session context (
    item null_address []
    ∷ item unconnected_data (
        cip_request (tag_service_code write_tag) (symbolic_bytes name)
          (u16_bytes (element_count % 2 ^ 16) ++ (u16_bytes type ++ values)))
    ∷ [])

-- `wdata`, as the argument of `send`.
abbrev pub write_slice : Tag → ℕ → ℕ → Slice
write_slice tag element_count len = record {
  bytes = some (write_data tag element_count len);
  len = 4 + len;
}

module _ (tag : Tag) (n len : ℕ) (room : length tag.payload ≡ max_data_size)
    (fits : len ≤ max_data_size) where
  abbrev values : List ℕ
  values = take len tag.payload

  abbrev blank : List ℕ
  blank = replicate 260 0

  abbrev written : List ℕ
  written = u16_bytes (n % 2 ^ 16) ++ (u16_bytes tag.data_type ++ values)

  write-content : content (write_slice tag n len) ≡ written
  unfolding write_data put_u16
  write-content =
      let size : length written ≡ 4 + len = omega (arith, length-take len tag.payload, room) in
      let head = u16_bytes (n % 2 ^ 16) in
      ap (λ xs. take (4 + len) (store xs 4 values))
        (store-append blank 0 2 head (u16_bytes tag.data_type) refl)
      ∙ ap (take (4 + len)) (store-append blank 0 4 (head ++ u16_bytes tag.data_type) values refl)
      ∙ ap (λ (k : ℕ). take k (store blank 0 written)) (sym size)
      ∙ take-store_start blank written (omega (arith, size, fits))

  write-IsSlice : length (content (write_slice tag n len)) ≡ 4 + len
  write-IsSlice = ap length write-content ∙ omega (arith, length-take len tag.payload, room)

  -- The packet that the request makes.
  request-write_frame :
      (session context : ℕ) (name : List ℕ)
      → length name ≤ max_symbolic_name
      → request_frame session context
          (tag_service_code write_tag)
          (path_of name)
          (write_slice tag n len)
        ≡ write_frame session context name n tag.data_type values
  request-write_frame session context name short =
      ap (λ xs. packet session context xs (content (write_slice tag n len)))
        (path-content name short)
      ∙ ap (packet session context (symbolic_bytes name)) write-content
    where
      packet : ℕ → ℕ → List ℕ → List ℕ → List ℕ
      packet session context path payload = frame send_rr_data session context (
          item null_address []
          ∷ item unconnected_data (cip_request (tag_service_code write_tag) path payload)
          ∷ [])

-- A tag that has been written: its data are as they were.
pub record IsWritten (before : Tag) (st : Status) (tag : Tag) : Type 0 where
  pub all_ok : st ≡ ok
  pub is_done : tag.state ≡ done
  pub same_payload : tag.payload ≡ before.payload
  pub same_length : tag.payload_len ≡ before.payload_len
  pub same_type : tag.data_type ≡ before.data_type
  pub no_code : tag.result_code ≡ 0

module _ {W : Type 0} (t : Transport W) where
  finish-IsWritten :
      (tag : Tag) (m : Message)
      → tag.state ≡ writing
      → m.result_code ≡ 0
      → let fin = finish t tag m in IsWritten tag fin.0 fin.1
  unfolding finish
  finish-IsWritten tag m e z = ground (arith, e, z)

  polled-IsWritten :
      (tag : Tag) (out : Status × Message × W) (service : ℕ)
      → tag.state ≡ writing
      → Answered service 0 [] out.0 out.1
      → let fin = polled t tag out in IsWritten tag fin.0 fin.1 × (fin.3 ≡ out.2)
  polled-IsWritten tag (ok, m, w) service e a = (finish-IsWritten tag m e a.code_read, refl)
  polled-IsWritten tag (pending, m, w) service e a = ground (arith, a.all_ok)
  polled-IsWritten tag (st, m, w) service e a = ground (arith, a.all_ok)

  write-started :
      (tag : Tag) (m : Message) (w : W) (session : ℕ) (name : List ℕ) (n len timeout_ms : ℕ)
      → is_busy tag.state ≡ false
      → tag.data_type ≢ 0
      → length name ≤ max_symbolic_name
      → write_length tag n ≡ some len
      → let (st, m1, w1) =
          send t m w session
            (tag_service_code write_tag)
            (path_of name)
            (write_slice tag n len)
            timeout_ms in
        st ≡ pending
        → write t tag m w session (some name) n timeout_ms
          ≡ (pending, record tag { state = writing }, m1, w1)
  unfolding write start_write
  write-started tag m w session name n len timeout_ms free typed short sized goes =
      let known : (tag.data_type == 0) ≡ false = ground (arith, typed) in
      ground (arith, free, known, sized, goes)

  -- A write that is accepted has only read the clock.
  pub write-clock :
      (tag : Tag) (m : Message) (w : W) (session : ℕ) (name : List ℕ) (n len timeout_ms : ℕ)
      → is_busy tag.state ≡ false
      → tag.data_type ≢ 0
      → length tag.payload ≡ max_data_size
      → write_length tag n ≡ some len
      → length name ≤ max_symbolic_name
      → length (symbolic_bytes name) + len ≤ 250
      → IsMessage m
      → is_sending m.state ≡ false
      → t.connected w ≡ true
      → (write t tag m w session (some name) n timeout_ms).3 ≡ (t.millis w).1
  write-clock tag m w session name n len timeout_ms free typed room sized short small h idle up =
      let slice = write_slice tag n len in
      let whole = write-IsSlice tag n len room (omega (arith, small)) in
      let q = tag-IsRequest name short slice whole (omega (arith, small)) in
      let started =
        send_request t m w session (tag_service_code write_tag) (path_of name) slice timeout_ms h
          idle up q in
      let fresh =
        send-fresh t m w session (tag_service_code write_tag) (path_of name) slice timeout_ms idle
          up q in
      let begun =
        write-started tag m w session name n len timeout_ms free typed short sized started.0 in
      ap (λ r. r.3) begun ∙ fresh.1

  -- From a state in which the stream moves bytes at both ends and goes on so (`IsReady`), a tag is
  -- written: from a tag with a type and data of `len` bytes, so that the name and they fit a
  -- request, `write` and then `poll` before the deadline put exactly the Write Tag packet with the
  -- tag's name, the element count, the type and those bytes on the stream, and where the successful
  -- answer of the target, which has no data, can then be read, they end with `Ok` and with the data
  -- of the tag as they were.
  pub poll-write :
      IsTransport t
      → (s : Streams t) {on : W → Type 0} → IsReady s on
      → (tag : Tag) (m : Message) (w : W) (session : ℕ) (name : List ℕ) (n len timeout_ms : ℕ)
      → on w
      → is_busy tag.state ≡ false
      → tag.data_type ≢ 0
      → length tag.payload ≡ max_data_size
      → write_length tag n ≡ some len
      → length name ≤ max_symbolic_name
      → length (symbolic_bytes name) + len ≤ 250
      → IsMessage m
      → is_sending m.state ≡ false
      → t.connected w ≡ true
      → (handle service : ℕ) (more : List ℕ) → FitsReply handle m.context service 0 []
      → let (st, tag1, m1, w1) = write t tag m w session (some name) n timeout_ms in
        expired (t.millis w1).0 (deadline_after (t.millis w).0 timeout_ms) ≡ false
        → (let out = write_pending t m1.wire (t.millis w1).1 in
            s.unread out.2 ≡ response_frame handle m.context service 0 [] ++ more)
        → let (st2, tag2, m2, w2) = poll t tag1 m1 w1 in
          IsWritten tag st2 tag2
          × (s.sent w2
              ≡ s.sent w
                ++ write_frame session m.context name n tag.data_type (take len tag.payload))
          × (s.unread w2 ≡ more)
  unfolding poll
  poll-write ht s r tag m w session name n len timeout_ms o free typed room sized short small h idle
        up handle service more v =
      let path = path_of name in
      let slice = write_slice tag n len in
      let whole = write-IsSlice tag n len room (omega (arith, small)) in
      let q = tag-IsRequest name short slice whole (omega (arith, small)) in
      let started =
        send_request t m w session (tag_service_code write_tag) path slice timeout_ms h idle up q in
      let begun =
        write-started tag m w session name n len timeout_ms free typed short sized started.0 in
      rw begun (λ early there.
        let (_, m1, w1) = send t m w session (tag_service_code write_tag) path slice timeout_ms in
        let (a, moved, left) =
          poll-send t ht s r handle m.context service 0 [] more v m w session
            (tag_service_code write_tag) path slice timeout_ms h o idle refl up q early there in
        let fin =
          polled-IsWritten (record tag { state = writing }) (Message.poll t m1 w1) service refl a in
        (
          again fin.0,
          ap s.sent fin.1
              ∙ moved
              ∙ ap (λ xs. s.sent w ++ xs)
                  (request-write_frame tag n len room (omega (arith, small)) session m.context name
                    short),
          ap s.unread fin.1 ∙ left,
        ))
    where
      again :
          {st : Status} {tag2 : Tag}
          → IsWritten (record tag { state = writing }) st tag2
          → IsWritten tag st tag2
      again v = record {
        all_ok = v.all_ok;
        is_done = v.is_done;
        same_payload = v.same_payload;
        same_length = v.same_length;
        same_type = v.same_type;
        no_code = v.no_code;
      }
