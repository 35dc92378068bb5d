-- ===== src/Wire/Framing.antt =====
-- `readResponse` stays inside its buffer, and ends at the end of a frame.
use esp32_control_logix.Base.{
  ℕ, zero, suc, ◌+◌, ◌-◌, ◌≤◌, ◌<◌, ◌≡◌, ◌≢◌, refl, sym, ap, ◌∙◌, inl, inr, ltb, ◌==◌, List, length,
  All, length-store, store-All, arith, Bool-cases,
}
use esp32_control_logix.Base.Int.{sign, nothing, count, code}
use native.Mathlib.Decide.{dec_lt}
use esp32_control_logix.Status.{ok, pending}
use esp32_control_logix.Encapsulation.{IsByte, header_size, decode_header}
use esp32_control_logix.Encapsulation.Words.{get_u16-store_before}
use esp32_control_logix.Transport.{Transport, IsTransport}
use esp32_control_logix.Wire.{
  Wire, Outcome, received, body_length, read_on, rounds_left, read_loop, read_response,
}
use esp32_control_logix.Wire.Sending.{of_int-failure}

-- The receive buffer between two polls: bytes, room for the largest frame, and a frame whose end is
-- known once its header is there.
pub record IsReceiving (max_body : ℕ) (b : Wire) : Type 0 where
  pub rx_room : length b.rx ≡ header_size + max_body
  pub rx_bytes : All IsByte b.rx
  pub rx_fits : b.rx_len ≤ b.rx_expected
  pub expected_fits : b.rx_expected ≤ header_size + max_body
  pub header_first : b.rx_len < header_size → b.rx_expected ≡ header_size
  pub body_next : header_size ≤ b.rx_len → b.rx_expected ≡ header_size + body_length b

-- What `readResponse` may change, and what its status means.
pub record Read {W : Type 0} (max_body : ℕ) (b : Wire) (out : Outcome W) : Type 0 where
  pub only_rx :
      out.1 ≡ record b { rx = out.1.rx; rx_len = out.1.rx_len; rx_expected = out.1.rx_expected }
  pub rx_room : length out.1.rx ≡ header_size + max_body
  pub rx_bytes : All IsByte out.1.rx
  pub rx_fits : out.1.rx_len ≤ header_size + max_body
  pub pending_receiving : out.0 ≡ pending → IsReceiving max_body out.1
  pub ok_receiving : out.0 ≡ ok → IsReceiving max_body out.1
  pub ok_frame : out.0 ≡ ok → out.1.rx_len ≡ out.1.rx_expected

-- A frame that is complete has its header.
pub whole_frame :
    {max_body : ℕ} (b : Wire)
    → IsReceiving max_body b
    → b.rx_len ≡ b.rx_expected
    → (header_size ≤ b.rx_len) × (b.rx_len ≡ header_size + body_length b)
whole_frame b v e = elim (dec_lt b.rx_len header_size) [
  | yes early ↦ absurd (omega (arith, v.header_first early))
  | no late ↦ (omega arith, e ∙ v.body_next (omega arith))
]

body_length-received :
    (b : Wire) (bs : List ℕ) (n : ℕ) → 4 ≤ b.rx_len → body_length (received b bs n) ≡ body_length b
unfolding decode_header
body_length-received b bs n h = get_u16-store_before b.rx 2 b.rx_len bs h

module _ (max_body : ℕ) (b : Wire) (bs : List ℕ) (n : ℕ) where
  -- After a round that got bytes, when the header was not completed in it.
  pub received-IsReceiving :
      IsReceiving max_body b
      → All IsByte bs
      → b.rx_len + suc n ≤ b.rx_expected
      → b.rx_len + suc n ≢ header_size
      → IsReceiving max_body (received b bs (suc n))
  received-IsReceiving v hb fits ne = record {
    rx_room = length-store b.rx b.rx_len bs ∙ v.rx_room;
    rx_bytes = store-All IsByte b.rx b.rx_len bs v.rx_bytes hb;
    rx_fits = fits;
    expected_fits = v.expected_fits;
    header_first = λ h. v.header_first (omega arith);
    body_next = λ h. body h;
  }
    where
      body :
          header_size ≤ b.rx_len + suc n
          → b.rx_expected ≡ header_size + body_length (received b bs (suc n))
      body h = elim (dec_lt b.rx_len header_size) [
        | yes early ↦ absurd (ne (omega (arith, v.header_first early)))
        | no late ↦
            v.body_next (omega arith)
            ∙ ap (λ (k : ℕ). header_size + k)
                (sym (body_length-received b bs (suc n) (omega arith)))
      ]

  -- After a round that completed the header, and found the body within its bound.
  pub headed-IsReceiving :
      IsReceiving max_body b
      → All IsByte bs
      → b.rx_len + suc n ≡ header_size
      → body_length (received b bs (suc n)) ≤ max_body
      → IsReceiving max_body (record (received b bs (suc n)) {
        rx_expected = header_size + body_length (received b bs (suc n));
      })
  headed-IsReceiving v hb e small = record {
    rx_room = length-store b.rx b.rx_len bs ∙ v.rx_room;
    rx_bytes = store-All IsByte b.rx b.rx_len bs v.rx_bytes hb;
    rx_fits = omega arith;
    expected_fits = omega arith;
    header_first = λ h. absurd (omega arith);
    body_next = λ h. refl;
  }

module _ {W : Type 0} (max_body rounds : ℕ) (again : Wire → W → Outcome W) where
  -- The rest of a round that got bytes is right, if the rest of the loop is.
  read_on-Read :
      (b : Wire) (bs : List ℕ) (n : ℕ) (w : W)
      → IsReceiving max_body b
      → All IsByte bs
      → b.rx_len + suc n ≤ b.rx_expected
      → rounds_left max_body b ≤ suc rounds
      → ((c : Wire)
          → IsReceiving max_body c
          → rounds_left max_body c ≤ rounds
          → Read max_body c (again c w))
      → Read max_body b (read_on max_body again (received b bs (suc n)) w)
  read_on-Read b bs n w v hb fits k rest = elim (Bool-cases (b.rx_len + suc n == header_size)) [
    | inl whole ↦
        let full : b.rx_len + suc n ≡ header_size = ground arith in
        elim (Bool-cases (ltb max_body (body_length b'))) [
          | inl long ↦ ground (
            arith,
            length-store b.rx b.rx_len bs,
            store-All IsByte b.rx b.rx_len bs v.rx_bytes hb,
          )
          | inr short ↦
              let fine : body_length b' ≤ max_body = ground arith in
              let c : Wire = record b' { rx_expected = header_size + body_length b' } in
              let less : rounds_left max_body c ≤ rounds = ground arith in
              ground (
                arith,
                as_before (header_size + body_length b') _
                    (rest c (headed-IsReceiving max_body b bs n v hb full fine) less),
              )
        ]
    | inr part ↦
        let ne : b.rx_len + suc n ≢ header_size = ground arith in
        let less : rounds_left max_body b' ≤ rounds = ground arith in
        ground (
          arith,
          as_before b.rx_expected _
              (rest b' (received-IsReceiving max_body b bs n v hb fits ne) less),
        )
  ]
    where
      b' : Wire
      b' = received b bs (suc n)

      as_before :
          (c : ℕ) (out : Outcome W)
          → Read max_body (record (received b bs (suc n)) { rx_expected = c }) out
          → Read max_body b out
      as_before c out r = record {
        only_rx = r.only_rx;
        rx_room = r.rx_room;
        rx_bytes = r.rx_bytes;
        rx_fits = r.rx_fits;
        pending_receiving = r.pending_receiving;
        ok_receiving = r.ok_receiving;
        ok_frame = r.ok_frame;
      }

module _ {W : Type 0} (t : Transport W) (v : IsTransport t) (max_body : ℕ) where
  read_loop-Read :
      (rounds : ℕ) (b : Wire) (w : W)
      → IsReceiving max_body b
      → rounds_left max_body b ≤ rounds
      → Read max_body b (read_loop t max_body rounds b w)
  unfolding read_loop
  read_loop-Read zero b w h k = ground arith
  read_loop-Read (suc rounds) b w h k =
      let r = t.read w (b.rx_expected - b.rx_len) in
      elim (sign r.0) [
        | nothing e ↦ ground arith
        | count i e ↦
            let fits : b.rx_len + suc i ≤ b.rx_expected =
              ground (arith, v.read_fits w (b.rx_expected - b.rx_len) (suc i)) in
            let bytes = v.read_bytes w (b.rx_expected - b.rx_len) in
            ground (
              arith,
              read_on-Read max_body rounds (read_loop t max_body rounds) b r.1 i r.2 h bytes fits k
                  (λ c hc kc. read_loop-Read rounds c r.2 hc kc),
            )
        | code i e ↦ ground (arith, of_int-failure i)
      ]

  -- From a buffer between two rounds, over a transport that keeps its contract, on every branch
  -- `readResponse` keeps `rx` within its size and leaves the rest of the buffers
  -- alone. `Pending` keeps the buffer ready for the next call. `Ok` means that the buffer holds one
  -- whole frame and no byte more: 24 bytes of header and the body length that the header names.
  pub read_response-Read :
      (b : Wire) (w : W) → IsReceiving max_body b → Read max_body b (read_response t max_body b w)
  unfolding read_response
  read_response-Read b w h = read_loop-Read (rounds_left max_body b) b w h (omega arith)
