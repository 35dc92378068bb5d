-- ===== src/Tag/Exchange.antt =====
-- How a tag's state follows the message that it shares.
use esp32_control_logix.Base.{
  ℕ, ◌+◌, ◌≡◌, ◌≢◌, ◌⊎◌, inl, inr, true, false, Option, some, List, replicate, ◌%◌, ◌^◌, Bool-cases,
  Option-cases, arith,
}
use esp32_control_logix.Status.{Status, pending, ok}
use esp32_control_logix.Encapsulation.{put_u16}
use esp32_control_logix.Cip.{tag_service_code, read_tag, write_tag}
use esp32_control_logix.Transport.{Transport}
use esp32_control_logix.Message.{Message, Slice, is_sending}
use esp32_control_logix.Message
use esp32_control_logix.Message.Flight.{bit, flight, send-flight, poll-flight}
use esp32_control_logix.Tag.{
  Tag, is_busy, characters, path_of, read_started, write_started, start_read, read, start_write,
  write, write_length, write_data, finish, polled, poll,
}

-- 1 while the tag has an operation in flight.
abbrev pub busy_bit : Tag → ℕ
busy_bit tag = bit (is_busy tag.state)

-- The tag and the message gain and lose an operation together.
abbrev pub Together : {W : Type 0} → Tag → Message → Status × Tag × Message × W → Type 0
Together tag m r = busy_bit r.1 + flight m ≡ busy_bit tag + flight r.2

-- How `send` may end.
abbrev Sent : {W : Type 0} → Message → Status × Message × W → Type 0
Sent m r =
    ((r.0 ≡ pending) × (flight m ≡ 0) × (flight r.1 ≡ 1))
    ⊎ ((r.0 ≢ pending) × (r.1.state ≡ m.state))

read_started-Together :
    {W : Type 0} (t : Transport W) (tag : Tag) (m : Message) (r : Status × Message × W)
    → is_busy tag.state ≡ false
    → Sent m r
    → Together tag m (read_started t tag r)
read_started-Together t tag m (pending, n, w) e s = ground arith
read_started-Together t tag m (st, n, w) e s = ground arith

write_started-Together :
    {W : Type 0} (t : Transport W) (tag : Tag) (m : Message) (r : Status × Message × W)
    → is_busy tag.state ≡ false
    → Sent m r
    → Together tag m (write_started t tag r)
write_started-Together t tag m (pending, n, w) e s = ground arith
write_started-Together t tag m (st, n, w) e s = ground arith

module _ {W : Type 0} (t : Transport W) where
  start_read-Together :
      (tag : Tag) (m : Message) (w : W) (session : ℕ) (name : List ℕ) (n timeout_ms : ℕ)
      → is_busy tag.state ≡ false
      → Together tag m (start_read t tag m w session name n timeout_ms)
  unfolding start_read
  start_read-Together tag m w session name n timeout_ms e =
      read_started-Together t tag m _ e (send-flight t m w session _ _ _ timeout_ms)

  start_write-Together :
      (tag : Tag) (m : Message) (w : W) (session : ℕ) (name : List ℕ) (n timeout_ms : ℕ)
      → is_busy tag.state ≡ false
      → Together tag m (start_write t tag m w session name n timeout_ms)
  unfolding start_write
  start_write-Together tag m w session name n timeout_ms e =
      elim (Option-cases (write_length tag n)) [
        | inl bad ↦ ground arith
        | inr (len, good) ↦
            let payload : Slice = record { bytes = some (write_data tag n len); len = 4 + len } in
            let sent =
              send-flight t m w session (tag_service_code write_tag) (path_of name) payload
                timeout_ms in
            ground (
              arith,
              write_started-Together t tag m
                  (Message.send t m w session (tag_service_code write_tag) (path_of name) payload
                    timeout_ms)
                  e sent,
            )
      ]

  pub read-Together :
      (tag : Tag) (m : Message) (w : W) (session : ℕ) (name : Option (List ℕ)) (n timeout_ms : ℕ)
      → Together tag m (read t tag m w session name n timeout_ms)
  unfolding read
  read-Together tag m w session name n timeout_ms =
      let started = start_read-Together tag m w session (characters name) n timeout_ms in
      ground (arith, started)

  pub write-Together :
      (tag : Tag) (m : Message) (w : W) (session : ℕ) (name : Option (List ℕ)) (n timeout_ms : ℕ)
      → Together tag m (write t tag m w session name n timeout_ms)
  unfolding write
  write-Together tag m w session name n timeout_ms =
      let started = start_write-Together tag m w session (characters name) n timeout_ms in
      ground (arith, started)

  finish-idle : (tag : Tag) (m : Message) → is_busy (finish t tag m).1.state ≡ false
  unfolding finish
  finish-idle tag m = ground arith

  polled-Together :
      (tag : Tag) (m : Message) (r : Status × Message × W)
      → is_busy tag.state ≡ true
      → ((r.0 ≡ pending) × (flight r.1 ≡ 1)) ⊎ ((r.0 ≢ pending) × (flight r.1 ≡ 0))
      → flight m ≡ 1
      → Together tag m (polled t tag r)
  polled-Together tag m (pending, n, w) b p e = ground arith
  polled-Together tag m (ok, n, w) b p e = ground (arith, finish-idle tag n)
  polled-Together tag m (st, n, w) b p e = ground arith

  -- With the message in flight for it, a busy tag ends when the message does; an idle tag leaves
  -- the message alone.
  pub poll-Together :
      (tag : Tag) (m : Message) (w : W)
      → (is_busy tag.state ≡ true → flight m ≡ 1)
      → Together tag m (poll t tag m w)
  unfolding poll
  poll-Together tag m w h = elim (Bool-cases (is_busy tag.state)) [
    | inl b ↦
        let ends =
          polled-Together tag m (Message.poll t m w) b (poll-flight t m w (ground (arith, h b)))
            (h b) in
        ground (arith, ends)
    | inr free ↦ ground arith
  ]

module _ {W : Type 0} (t : Transport W) where
  started-blocked :
      (tag : Tag) (m : Message) (r : Status × Message × W)
      → Sent m r
      → is_sending m.state ≡ true
      → ((read_started t tag r).0 ≢ pending) × ((write_started t tag r).0 ≢ pending)
  started-blocked tag m (pending, n, w) s e = ground arith
  started-blocked tag m (st, n, w) s e = (ground arith, ground arith)

  -- While the shared message is in flight, no tag can start a read or a write.
  pub read-blocked :
      (tag : Tag) (m : Message) (w : W) (session : ℕ) (name : Option (List ℕ)) (n timeout_ms : ℕ)
      → is_sending m.state ≡ true
      → (read t tag m w session name n timeout_ms).0 ≢ pending
  unfolding read start_read
  read-blocked tag m w session name n timeout_ms e =
      let count : Slice = record {
        bytes = some (put_u16 (replicate 2 0) 0 (n % 2 ^ 16));
        len = 2;
      } in
      let path = path_of (characters name) in
      let r = Message.send t m w session (tag_service_code read_tag) path count timeout_ms in
      let sent = send-flight t m w session (tag_service_code read_tag) path count timeout_ms in
      ground (arith, (started-blocked tag m r sent e).0)

  pub write-blocked :
      (tag : Tag) (m : Message) (w : W) (session : ℕ) (name : Option (List ℕ)) (n timeout_ms : ℕ)
      → is_sending m.state ≡ true
      → (write t tag m w session name n timeout_ms).0 ≢ pending
  unfolding write start_write
  write-blocked tag m w session name n timeout_ms e = elim (Option-cases (write_length tag n)) [
    | inl bad ↦ ground arith
    | inr (len, good) ↦
        let payload : Slice = record { bytes = some (write_data tag n len); len = 4 + len } in
        let path = path_of (characters name) in
        let r = Message.send t m w session (tag_service_code write_tag) path payload timeout_ms in
        let sent = send-flight t m w session (tag_service_code write_tag) path payload timeout_ms in
        ground (arith, (started-blocked tag m r sent e).1)
  ]
