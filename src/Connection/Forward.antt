-- ===== src/Connection/Forward.antt =====
-- The bytes of Forward Open: what `startOpen` puts into the message that opens the connection.
use esp32_control_logix.Base.{
  ℕ, zero, suc, ◌+◌, ◌/◌, ◌%◌, ◌≤◌, ◌<◌, ◌≡◌, ◌≢◌, refl, sym, ap, ◌∙◌, true, false, some, List, [],
  ◌∷◌, ◌++◌, length, take, take_all, take-store_start, Bool, length-append, store, store-nil,
  store-store, ◌==◌, if◌then◌else◌, arith,
}
use esp32_control_logix.Status.{Status, pending}
use esp32_control_logix.Encapsulation.{send_rr_data, u32_bytes}
use esp32_control_logix.Cip.{null_address, unconnected_data, append_symbolic}
use esp32_control_logix.Cip.Symbolic.{symbolic_bytes, length-symbolic_bytes, append_symbolic-eq}
use esp32_control_logix.Packet.{item, frame, cip_request}
use esp32_control_logix.Transport.{Transport}
use esp32_control_logix.Message
use esp32_control_logix.Message.{Message, Slice}
use esp32_control_logix.Message.Request.{content, request_frame}
use esp32_control_logix.Message.Progress.{IsRequest, send_request}
use esp32_control_logix.Connection.{
  Connection, State, opening, sending, closing, append_all, open_parameters, scratch, open_data,
  manager_path, slice_of,
}
use esp32_control_logix.Connection.Calls.{forwarded, start_open, open_connection}
use esp32_control_logix.Connection.Exchange.{IsConnection}

abbrev joined : List (List ℕ) → List ℕ
joined [] = []
joined (piece ∷ pieces) = piece ++ joined pieces

append_all-eq :
    (buf : List ℕ) (d : ℕ) (pieces : List (List ℕ))
    → append_all buf d pieces ≡ (store buf d (joined pieces), d + length (joined pieces))
unfolding append_all
append_all-eq buf d [] =
    let here : d ≡ d + 0 = omega arith in
    ap (λ (b : List ℕ). (b, d)) (sym (store-nil buf d)) ∙ ap (λ (k : ℕ). (store buf d [], k)) here
append_all-eq buf d (piece ∷ pieces) =
    let rest = joined pieces in
    let end : d + length piece + length rest ≡ d + length (piece ++ rest) =
      omega (arith, length-append piece rest) in
    append_all-eq (store buf d piece) (d + length piece) pieces
    ∙ ap (λ (b : List ℕ). (b, d + length piece + length rest)) (store-store buf d piece rest)
    ∙ ap (λ (k : ℕ). (store buf d (piece ++ rest), k)) end

-- A byte that is written in front of what was written behind it.
store-front :
    (buf : List ℕ) (d x : ℕ) (ys : List ℕ)
    → store (store buf (d + 1) ys) d (x ∷ []) ≡ store buf d (x ∷ ys)
store-front [] d x ys = refl
store-front (b ∷ bs) zero x ys = ap (◌∷◌ x) (store-nil (store bs zero ys) zero)
store-front (b ∷ bs) (suc d) x ys =
    let next : suc d + 1 ≡ suc (d + 1) = omega arith in
    ap (λ (k : ℕ). store (store (b ∷ bs) k ys) (suc d) (x ∷ [])) next
    ∙ ap (◌∷◌ b) (store-front bs d x ys)

-- The data of a Forward Open request: priority and ticks, the two connection ids (the target's is
-- still 0), the serial number and the originator, the timeout multiplier, the interval and the
-- parameters of each direction, the transport class, and the path to the tag.
abbrev pub forward_open : ℕ → List ℕ → List ℕ
forward_open ot name =
    0x0a ∷ 0x0e ∷ u32_bytes ot
    ++ (0
        ∷ 0
        ∷ 0
        ∷ 0
        ∷ 1
        ∷ 0
        ∷ 1
        ∷ 0
        ∷ 1
        ∷ 0
        ∷ 0
        ∷ 0
        ∷ 3
        ∷ 0
        ∷ 0
        ∷ 0
        ∷ 0x10
        ∷ 0x27
        ∷ 0
        ∷ 0
        ∷ 0
        ∷ 0x42
        ∷ 0x10
        ∷ 0x27
        ∷ 0
        ∷ 0
        ∷ 0
        ∷ 0x42
        ∷ 0xa3
        ∷ length (symbolic_bytes name) / 2
        ∷ symbolic_bytes name)

length-forward_open :
    (ot : ℕ) (name : List ℕ)
    → length name < 64
    → (length (forward_open ot name) ≤ 102) × (length (symbolic_bytes name) / 2 < 256)
length-forward_open ot name h = ground (arith, length-symbolic_bytes name)

-- What `startOpen` does after the parameters: the size of the path in words, and the path.
abbrev with_path : List ℕ × ℕ → List ℕ → List ℕ × ℕ
with_path (b1, d) name =
    let (b2, len) = append_symbolic b1 (d + 1) name in
    (store b2 d ((len / 2 % 256) ∷ []), d + 1 + len)

path_behind :
    (buf : List ℕ) (pieces : List (List ℕ)) (name : List ℕ)
    → length (symbolic_bytes name) / 2 < 256
    → let whole = joined pieces ++ ((length (symbolic_bytes name) / 2) ∷ symbolic_bytes name) in
      with_path (append_all buf 0 pieces) name ≡ (store buf 0 whole, length whole)
path_behind buf pieces name small =
    let front = joined pieces in
    let d = 0 + length front in
    let path = symbolic_bytes name in
    let words = length path / 2 in
    let fits : words % 256 ≡ words = omega (arith, small) in
    let end : d + 1 + length path ≡ length (front ++ (words ∷ path)) =
      omega (arith, length-append front (words ∷ path)) in
    rw (append_all-eq buf 0 pieces, append_symbolic-eq (store buf 0 front) (d + 1) name)
      (ap
          (λ (k : ℕ).
            (store (store (store buf 0 front) (d + 1) path) d (k ∷ []), d + 1 + length path))
          fits
        ∙ ap (λ (b : List ℕ). (b, d + 1 + length path))
            (store-front (store buf 0 front) d words path ∙ store-store buf 0 front (words ∷ path))
        ∙ ap (λ (k : ℕ). (store buf 0 (front ++ (words ∷ path)), k)) end)

open_data-eq :
    (ot : ℕ) (name : List ℕ)
    → length name < 64
    → open_data ot name ≡ (store scratch 0 (forward_open ot name), length (forward_open ot name))
unfolding open_data
open_data-eq ot name h =
    path_behind scratch (open_parameters ot) name (length-forward_open ot name h).1

-- The data that are sent are the bytes of the request, and the request can be taken.
open_data-content :
    (ot : ℕ) (name : List ℕ)
    → length name < 64
    → content (slice_of (open_data ot name)) ≡ forward_open ot name
open_data-content ot name h =
    let room : length (forward_open ot name) ≤ length scratch =
      omega (arith, (length-forward_open ot name h).0) in
    rw (open_data-eq ot name h) (take-store_start scratch (forward_open ot name) room)

pub open_data-IsRequest :
    (ot : ℕ) (name : List ℕ)
    → length name < 64
    → IsRequest manager_path (slice_of (open_data ot name))
open_data-IsRequest ot name h =
    let size : (open_data ot name).1 ≡ length (forward_open ot name) =
      ap (λ (r : List ℕ × ℕ). r.1) (open_data-eq ot name h) in
    record {
      path_whole = refl;
      payload_whole = ap length (open_data-content ot name h) ∙ sym size;
      even = refl;
      small = omega (arith, size, (length-forward_open ot name h).0);
    }

-- The packet of a Forward Open request to the Connection Manager.
abbrev unit_of : ℕ → ℕ → List ℕ → List ℕ
unit_of session context bytes = frame send_rr_data session context (
    item null_address []
    ∷ item unconnected_data (cip_request 0x54 (0x20 ∷ 0x06 ∷ 0x24 ∷ 0x01 ∷ []) bytes)
    ∷ [])

abbrev pub open_frame : ℕ → ℕ → ℕ → List ℕ → List ℕ
open_frame session context ot name = unit_of session context (forward_open ot name)

-- The packet that the request makes.
pub request-open_frame :
    (session context ot : ℕ) (name : List ℕ)
    → length name < 64
    → request_frame session context 0x54 manager_path (slice_of (open_data ot name))
      ≡ open_frame session context ot name
request-open_frame session context ot name h =
    ap (λ (bs : List ℕ). unit_of session context bs) (open_data-content ot name h)

abbrev pub is_busy : State → Bool
is_busy opening = true
is_busy sending = true
is_busy closing = true
is_busy s = false

module _ {W : Type 0} (t : Transport W) where
  -- What `startOpen` leaves of a request that was accepted.
  pub forwarded-pending :
      (c : Connection) (next : State) (r : Status × Message × W)
      → r.0 ≡ pending
      → forwarded t c next r ≡ (pending, record c { fwd = r.1; state = next }, r.2)
  forwarded-pending c next (pending, m, w) e = refl
  forwarded-pending c next (st, m, w) e = ground arith

  start_open-packet :
      (c : Connection) (w : W) (session : ℕ) (name : List ℕ) (timeout_ms : ℕ)
      → IsConnection c
      → Message.is_sending c.fwd.state ≡ false
      → t.connected (t.random w).1 ≡ true
      → length name < 64
      → let (st, c', w') = start_open t c w session name timeout_ms in
        (st ≡ pending)
        × (c'.state ≡ opening)
        × (take c'.fwd.wire.tx_len c'.fwd.wire.tx
            ≡ open_frame session c.fwd.context c'.ot_conn_id name)
        × (c'.fwd.wire.tx_sent ≡ 0)
        × (c'.ot_conn_id ≢ 0)
        × (c'.to_conn_id ≡ 0)
  unfolding start_open
  start_open-packet c w session name timeout_ms v idle up short =
      let (r, w1) = t.random w in
      let ot = if r == 0 then 1 else r in
      let not_zero : ot ≢ 0 = ground arith in
      let request = slice_of (open_data ot name) in
      let (accepted, flying, packet, unsent, context, deadline) =
        send_request t c.fwd w1 session 0x54 manager_path request timeout_ms v.forward idle up
          (open_data-IsRequest ot name short) in
      let opened : Connection = record c { ot_conn_id = ot; to_conn_id = 0; tag_name = name } in
      let out = Message.send t c.fwd w1 session 0x54 manager_path request timeout_ms in
      rw (take_all 63 name (omega (arith, short)), forwarded-pending opened opening out accepted)
        (
          refl,
          refl,
          packet ∙ request-open_frame session c.fwd.context ot name short,
          unsent,
          not_zero,
          refl,
        )

  -- Under the invariant, in a state in which no request is in flight, with a tag name of less than
  -- 64 characters and on a connected transport: `open` is accepted, and the transmit buffer of the
  -- message holds, from its start, exactly the Forward Open request for that tag, with an O->T id
  -- other than 0, none of it sent; the T->O id is not known yet.
  pub open-packet :
      (c : Connection) (w : W) (session : ℕ) (name : List ℕ) (timeout_ms : ℕ)
      → IsConnection c
      → is_busy c.state ≡ false
      → Message.is_sending c.fwd.state ≡ false
      → t.connected (t.random w).1 ≡ true
      → length name < 64
      → let (st, c', w') = open_connection t c w session (some name) timeout_ms in
        (st ≡ pending)
        × (c'.state ≡ opening)
        × (take c'.fwd.wire.tx_len c'.fwd.wire.tx
            ≡ open_frame session c.fwd.context c'.ot_conn_id name)
        × (c'.fwd.wire.tx_sent ≡ 0)
        × (c'.ot_conn_id ≢ 0)
        × (c'.to_conn_id ≡ 0)
  unfolding open_connection
  open-packet c w session name timeout_ms v free idle up short =
      let started = start_open-packet c w session name timeout_ms v idle up short in
      ground (arith, started, short)
