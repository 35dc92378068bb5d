-- ===== src/PlcClient/Link/Completion.antt =====
-- A tag that the sketch reads through the client holds the values of the answer.
use esp32_control_logix.Base.{
  ℕ, zero, suc, ◌∷◌, ◌≤◌, ◌<◌, ◌≡◌, refl, ap, ◌∙◌, true, false, some, List, [], ◌++◌, append-nil,
  length, get_elem?, All, arith,
}
use esp32_control_logix.Base.Int.{ℤ, pos, negsuc}
use esp32_control_logix.Status.{Status, ok, pending}
use esp32_control_logix.Encapsulation.{u16_bytes}
use esp32_control_logix.Cip.{max_symbolic_name}
use esp32_control_logix.Transport.{Transport, IsTransport, Streams, expired, deadline_after}
use esp32_control_logix.Network.{Network}
use esp32_control_logix.Wire.{write_pending}
use esp32_control_logix.Wire.Ready.{IsReady}
use esp32_control_logix.Message.{Message, is_sending}
use esp32_control_logix.Message.Exchange.{IsMessage}
use esp32_control_logix.Message.Reply.{FitsReply, response_frame}
use esp32_control_logix.Tag.{Tag, is_busy, max_data_size}
use esp32_control_logix.Tag
use esp32_control_logix.Tag.Packets.{read_frame}
use esp32_control_logix.Tag.Completion.{IsRead, read-begins, poll-read}
use esp32_control_logix.PlcClient.{
  PlcClient, Slot, ready, is_ready, with_slot, used_slot, any_tag_busy, index,
}
use esp32_control_logix.PlcClient.Tags.{sweep, read}
use esp32_control_logix.PlcClient.Tags.Single.{used_slot-get_elem?}
use esp32_control_logix.PlcClient.Tags.Reading.{IsQuiet, Silent, sweep-done, read-started_slot}
use esp32_control_logix.PlcClient.Link.{poll, poll_ready, finish_sweep}

-- What a client is before a read that can start: ready, every slot quiet, the shared message free
-- and in order, and the handle that of a tag in use.
pub record CanRead {W : Type 0} (t : Transport W) (c : PlcClient) (w : W) (h : ℤ) (s : Slot)
    : Type 0 where
  pub is_up : c.state ≡ ready
  pub quiet : All IsQuiet c.slots
  pub message : IsMessage c.msg
  pub free : is_sending c.msg.state ≡ false
  pub connected : t.connected w ≡ true
  pub names : used_slot c.slots h ≡ some s
  pub room : length s.tag.payload ≡ max_data_size
  pub name_fits : length s.name ≤ max_symbolic_name

quiet-any_tag_busy : (ss : List Slot) → All IsQuiet ss → any_tag_busy ss ≡ false
unfolding any_tag_busy
quiet-any_tag_busy [] q = refl
quiet-any_tag_busy (s ∷ ss) q = ground (arith, quiet-any_tag_busy ss q.1)

IsQuiet-get_elem? :
    (ss : List Slot) (k : ℕ) (s : Slot) → All IsQuiet ss → get_elem? ss k ≡ some s → IsQuiet s
IsQuiet-get_elem? [] k s q e = absurd cc
IsQuiet-get_elem? (x ∷ xs) zero s q e = ground (arith, q.0)
IsQuiet-get_elem? (x ∷ xs) (suc k) s q e = IsQuiet-get_elem? xs k s q.1 e

module _ {C W : Type 0} (net : Network C W) where
  open net use {transport as t}

  -- The `poll` of a ready client whose sweep makes no call.
  poll-Silent :
      (c : PlcClient) (w : W) (m : Message) (w' : W)
      → c.state ≡ ready
      → Silent (sweep t c.tag_callback 0 c.slots c.msg w) m w'
      → let (st, c', w2) = poll net c w in
        (st ≡ ok)
        × (c'.state ≡ ready)
        × (c'.calls ≡ c.calls)
        × (c'.slots ≡ (sweep t c.tag_callback 0 c.slots c.msg w).slots)
        × (w2 ≡ w')
  unfolding poll poll_ready finish_sweep
  poll-Silent c w m w' e s = ground (arith, e, s, append-nil c.calls)

used_slot-after :
    (ss ss' : List Slot) (h : ℤ) (s s' : Slot)
    → used_slot ss h ≡ some s
    → get_elem? ss' (index h) ≡ some s'
    → s'.in_use ≡ true
    → used_slot ss' h ≡ some s'
unfolding used_slot
used_slot-after ss ss' (negsuc n) s s' e f used = absurd cc
used_slot-after ss ss' (pos k) s s' e f used = ground (arith, f, used)

-- The client after the poll: still ready, with no further callback, and the tag of the handle read.
pub record HasRead (c : PlcClient) (h : ℤ) (type : ℕ) (values : List ℕ) (st : Status)
    (c' : PlcClient) : Type 0 where
  pub all_ok : st ≡ ok
  pub still_up : c'.state ≡ ready
  pub no_call : c'.calls ≡ c.calls
  pub slot : Slot
  pub names : used_slot c'.slots h ≡ some slot
  pub tag_read : IsRead type values ok slot.tag

module _ {C W : Type 0} (net : Network C W) where
  open net use {transport as t}

  -- Such a read has only read the clock.
  pub read-clock :
      (c : PlcClient) (w : W) (h : ℤ) (slot : Slot) (timeout_ms : ℕ)
      → CanRead t c w h slot
      → (read t c w h timeout_ms).2 ≡ (t.millis w).1
  read-clock c w h slot timeout_ms v =
      let at = used_slot-get_elem? c.slots h slot v.names in
      let quiet = IsQuiet-get_elem? c.slots (index h) slot v.quiet at.0 in
      let up : is_ready c ≡ true = ground (arith, v.is_up) in
      let started =
        read-started_slot t c w h slot timeout_ms v.names up (quiet-any_tag_busy c.slots v.quiet) in
      let begins =
        read-begins t slot.tag c.msg w c.session.handle slot.name slot.element_count timeout_ms
          quiet.0 v.name_fits v.message v.free v.connected in
      ap (λ r. r.2) started ∙ begins.1

  -- From a state in which the stream moves bytes at both ends and goes on so (`IsReady`), a sketch
  -- reads a tag: from a ready client with every slot quiet and its message free, `read` of a tag in
  -- use returns `Pending`, and the next `poll` of the client, before the deadline, has put exactly
  -- the Read Tag packet with the name and the element count of the tag and the handle of the
  -- session on the stream. Where the successful answer of the target, with a data type and at most
  -- 250 bytes of values, can then be read, the client stays ready, the tag of the handle holds
  -- those values and that type, what follows the answer stays unread, and the tag callback is not
  -- called for the end of the read: it ends in the first `poll` after the call, which the code does
  -- not take for the end of an operation.
  pub poll-read_tag :
      IsTransport t
      → (s : Streams t) {on : W → Type 0} → IsReady s on
      → (c : PlcClient) (w : W) (h : ℤ) (slot : Slot) (timeout_ms : ℕ) → CanRead t c w h slot
      → on w
      → (handle service type : ℕ) (values more : List ℕ) → type < 256
      → FitsReply handle c.msg.context service 0 (u16_bytes type ++ values)
      → let (st, c1, w1) = read t c w h timeout_ms in
        expired (t.millis w1).0 (deadline_after (t.millis w).0 timeout_ms) ≡ false
        → (let out = write_pending t c1.msg.wire (t.millis w1).1 in
            s.unread out.2
            ≡ response_frame handle c.msg.context service 0 (u16_bytes type ++ values) ++ more)
        → let (st2, c2, w2) = poll net c1 w1 in
          (st ≡ pending)
          × HasRead c h type values st2 c2
          × (s.sent w2
              ≡ s.sent w ++ read_frame c.session.handle c.msg.context slot.name slot.element_count)
          × (s.unread w2 ≡ more)
  poll-read_tag ht s r c w h slot timeout_ms v o handle service type values more small fits =
      let at = used_slot-get_elem? c.slots h slot v.names in
      let quiet = IsQuiet-get_elem? c.slots (index h) slot v.quiet at.0 in
      let up : is_ready c ≡ true = ground (arith, v.is_up) in
      let started =
        read-started_slot t c w h slot timeout_ms v.names up (quiet-any_tag_busy c.slots v.quiet) in
      let n = slot.element_count in
      let begins =
        read-begins t slot.tag c.msg w c.session.handle slot.name n timeout_ms quiet.0 v.name_fits
          v.message v.free v.connected in
      rw started (λ early there.
        let (_, tag1, m1, w1) =
          Tag.read t slot.tag c.msg w c.session.handle (some slot.name) n timeout_ms in
        let slot1 : Slot = record slot { tag = tag1 } in
        let (a, moved, left) =
          poll-read t ht s r slot.tag c.msg w c.session.handle slot.name n timeout_ms o quiet.0
            v.room v.name_fits v.message v.free v.connected handle service type values more small
            fits early there in
        let (_, tag2, m2, w2) = Tag.poll t tag1 m1 w1 in
        let swept =
          sweep-done t c.tag_callback 0 (index h) c.slots slot slot1 m1 w1 v.quiet at.0 at.1 quiet.1
            a.all_ok in
        let c1 : PlcClient = with_slot (record c { msg = m1 }) h slot1 in
        let (ended, still, silent, slots, world) = poll-Silent net c1 w1 m2 w2 v.is_up swept.0 in
        let there2 = ap (λ ss. get_elem? ss (index h)) slots ∙ swept.1 in
        (
          begins.0,
          record {
            all_ok = ended;
            still_up = still;
            no_call = silent;
            slot = record slot1 { tag = tag2; prev_status = ok };
            names = used_slot-after c.slots _ h slot _ v.names there2 at.1;
            tag_read = record {
              all_ok = refl;
              is_done = a.is_done;
              values_length = a.values_length;
              values_read = a.values_read;
              type_read = a.type_read;
              no_code = a.no_code;
            };
          },
          ap s.sent world ∙ moved,
          ap s.unread world ∙ left,
        ))
