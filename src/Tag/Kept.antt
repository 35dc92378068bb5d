-- ===== src/Tag/Kept.antt =====
-- What a `Tag` leaves true of the state behind the transport.
use esp32_control_logix.Base.{ℕ, Option, List, arith}
use esp32_control_logix.Status.{Status, ok, pending}
use esp32_control_logix.Cip.{tag_service_code, read_tag}
use esp32_control_logix.Transport.{Transport}
use esp32_control_logix.Wire.Kept.{IsKept}
use esp32_control_logix.Message
use esp32_control_logix.Message.{Message}
use esp32_control_logix.Message.Kept.{send-keeps, poll-keeps}
use esp32_control_logix.Tag.{Tag, characters, path_of, read, start_read, read_started, polled, poll}
use esp32_control_logix.Tag.Packets.{count_slice}

module _ {W : Type 0} (t : Transport W) {on : W → Type 0} (k : IsKept t on) where
  read_started-keeps : (tag : Tag) (r : Status × Message × W) → on r.2 → on (read_started t tag r).3
  read_started-keeps tag (pending, m, w) o = o
  read_started-keeps tag (st, m, w) o = o

  polled-keeps : (tag : Tag) (r : Status × Message × W) → on r.2 → on (polled t tag r).3
  polled-keeps tag (pending, m, w) o = o
  polled-keeps tag (ok, m, w) o = o
  polled-keeps tag (st, m, w) o = o

  pub tag_poll-keeps : (tag : Tag) (m : Message) (w : W) → on w → on (poll t tag m w).3
  unfolding poll
  tag_poll-keeps tag m w o =
      ground (arith, o, polled-keeps tag (Message.poll t m w) (poll-keeps t k m w o))

  pub tag_read-keeps :
      (tag : Tag) (m : Message) (w : W) (session : ℕ) (name : Option (List ℕ)) (n timeout_ms : ℕ)
      → on w
      → on (read t tag m w session name n timeout_ms).3
  unfolding read start_read
  tag_read-keeps tag m w session name n timeout_ms o =
      let path = path_of (characters name) in
      let sent =
        send-keeps t k m w session (tag_service_code read_tag) path (count_slice n) timeout_ms o in
      ground (
        arith,
        o,
        read_started-keeps tag
            (Message.send t m w session (tag_service_code read_tag) path (count_slice n) timeout_ms)
            sent,
      )
