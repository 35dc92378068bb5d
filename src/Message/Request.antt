-- ===== src/Message/Request.antt =====
-- The bytes that `send` puts into the transmit buffer.
use esp32_control_logix.Base.{
  ℕ, ◌+◌, ◌/◌, ◌%◌, ◌^◌, ◌≤◌, ◌<◌, ◌≡◌, refl, sym, ap, ◌∙◌, none, some, List, [], ◌∷◌, ◌++◌,
  append-nil, length, take, length-append, store, length-store, store-nil, store-store,
  store-append, arith,
}
use esp32_control_logix.Encapsulation.{
  command_code, send_rr_data, u16_bytes, u32_bytes, put_u16, put_u32,
}
use esp32_control_logix.Encapsulation.Header.{
  header_bytes, encode_header-eq-store, length-encode_header,
}
use esp32_control_logix.Encapsulation.Words.{length-put_u16, length-put_u32}
use esp32_control_logix.Cip.{item_code, null_address, unconnected_data}
use esp32_control_logix.Packet.{item, body_bytes, frame_header, frame, cip_request}
use esp32_control_logix.Message.{
  Slice, max_cip_data, copy, cip_length, request_header, put_cip, put_request,
}

-- The bytes that a slice stands for; `IsSlice` says that the object has as many.
abbrev pub content : Slice → List ℕ
content s = elim s.bytes [ none ↦ [] | some bs ↦ take s.len bs ]

abbrev pub IsSlice : Slice → Type 0
IsSlice s = length (content s) ≡ s.len

copy-eq-store : (buf : List ℕ) (off : ℕ) (s : Slice) → copy buf off s ≡ store buf off (content s)
copy-eq-store buf off s = ground (arith, store-nil buf off)

length-copy : (buf : List ℕ) (off : ℕ) (s : Slice) → length (copy buf off s) ≡ length buf
length-copy buf off s = ap length (copy-eq-store buf off s) ∙ length-store buf off (content s)

pub length-put_cip :
    (tx : List ℕ) (cip service : ℕ) (path payload : Slice)
    → length (put_cip tx cip service path payload) ≡ length tx
unfolding put_cip
length-put_cip tx cip service path payload = simp (length-copy, length-store)

pub length-put_request :
    (tx : List ℕ) (session context service : ℕ) (path payload : Slice)
    → length (put_request tx session context service path payload) ≡ length tx
unfolding put_request
length-put_request tx session context service path payload =
    simp (length-put_cip, length-put_u16, length-put_u32, length-encode_header)

-- The CIP request lies at `cip`, in one piece.
pub put_cip-eq-store :
    (tx : List ℕ) (cip service : ℕ) (path payload : Slice)
    → IsSlice path
    → path.len / 2 < 256
    → put_cip tx cip service path payload
      ≡ store tx cip (cip_request service (content path) (content payload))
unfolding put_cip
put_cip-eq-store tx cip service path payload h small =
    let words = path.len / 2 % 256 in
    let head : List ℕ = service ∷ words ∷ [] in
    let same : words ≡ length (content path) / 2 = omega arith in
    let end : cip + 2 + path.len ≡ cip + length (head ++ content path) = omega arith in
    let t2 = store (store tx cip (service ∷ [])) (cip + 1) (words ∷ []) in
    let t3 = store t2 (cip + 2) (content path) in
    ap (λ b. copy b (cip + 2 + path.len) payload) (copy-eq-store t2 (cip + 2) path)
    ∙ copy-eq-store t3 (cip + 2 + path.len) payload
    ∙ ap (λ b. store (store b (cip + 2) (content path)) (cip + 2 + path.len) (content payload))
        (store-append tx cip (cip + 1) (service ∷ []) (words ∷ []) refl)
    ∙ ap (λ b. store b (cip + 2 + path.len) (content payload))
        (store-append tx cip (cip + 2) head (content path) refl)
    ∙ store-append tx cip (cip + 2 + path.len) (head ++ content path) (content payload) end
    ∙ ap (λ (k : ℕ). store tx cip (service ∷ k ∷ content path ++ content payload)) same

abbrev pub request : ℕ → Slice → Slice → List ℕ
request service path payload = cip_request service (content path) (content payload)

pub length-request :
    (service : ℕ) (path payload : Slice)
    → IsSlice path
    → IsSlice payload
    → length (request service path payload) ≡ 2 + path.len + payload.len
length-request service path payload h k =
    omega (arith, length-append (content path) (content payload))

-- The request as a packet.
abbrev pub request_frame : ℕ → ℕ → ℕ → Slice → Slice → List ℕ
request_frame session context service path payload =
    frame send_rr_data session context
      (item null_address [] ∷ item unconnected_data (request service path payload) ∷ [])

pub length-request_frame :
    (session context service : ℕ) (path payload : Slice)
    → IsSlice path
    → IsSlice payload
    → length (request_frame session context service path payload)
      ≡ 40 + (2 + path.len + payload.len)
length-request_frame session context service path payload h k =
    let r = request service path payload in
    omega (arith, length-request service path payload h k, length-append r [])

module _ (tx : List ℕ) (session context service : ℕ) (path payload : Slice) where
  abbrev sent : List ℕ
  sent = request service path payload

  -- The buffer holds the encapsulated request from its start, and no other byte has changed.
  pub put_request-eq-store :
      IsSlice path
      → IsSlice payload
      → 2 + path.len + payload.len ≤ max_cip_data
      → put_request tx session context service path payload
        ≡ store tx 0 (request_frame session context service path payload)
  unfolding put_request put_u16 put_u32
  put_request-eq-store h k small =
      let cip_len = cip_length path payload in
      let header =
        header_bytes
          (request_header (command_code send_rr_data) (16 + cip_len) session context 0) in
      let s2 = header ++ u32_bytes 0 in
      let s3 = s2 ++ u16_bytes 0 in
      let s4 = s3 ++ u16_bytes 2 in
      let s5 = s4 ++ u16_bytes 0 in
      let s6 = s5 ++ u16_bytes 0 in
      let s7 = s6 ++ u16_bytes (item_code unconnected_data) in
      rw
        (
          encode_header-eq-store tx 0
              (request_header (command_code send_rr_data) (16 + cip_len) session context 0),
          store-store tx 0 header (u32_bytes 0),
          store-store tx 0 s2 (u16_bytes 0),
          store-store tx 0 s3 (u16_bytes 2),
          store-store tx 0 s4 (u16_bytes 0),
          store-store tx 0 s5 (u16_bytes 0),
          store-store tx 0 s6 (u16_bytes (item_code unconnected_data)),
          store-store tx 0 s7 (u16_bytes (cip_len % 2 ^ 16)),
        )
        (put_cip-eq-store (store tx 0 (s7 ++ u16_bytes (cip_len % 2 ^ 16))) 40 service path payload
            h (omega arith)
          ∙ store-append tx 0 40 (s7 ++ u16_bytes (cip_len % 2 ^ 16)) sent refl
          ∙ ap (λ (n : ℕ). store tx 0 (shape n (cip_len % 2 ^ 16) sent)) whole
          ∙ ap (λ (m : ℕ). store tx 0 (shape (length body) m sent)) own
          ∙ ap (λ r. store tx 0 (shape (length body) (length sent) r)) (sym (append-nil sent)))
    where
      shape : ℕ → ℕ → List ℕ → List ℕ
      shape n m r =
          header_bytes (record (frame_header send_rr_data session context []) { length = n })
          ++ (u32_bytes 0
              ++ (u16_bytes 0
                  ++ (u16_bytes 2
                      ++ (u16_bytes 0
                          ++ (u16_bytes 0
                              ++ (u16_bytes (item_code unconnected_data) ++ (u16_bytes m ++ r)))))))

      body : List ℕ
      body = body_bytes (item null_address [] ∷ item unconnected_data sent ∷ [])

      whole : (16 + cip_length path payload) % 2 ^ 16 ≡ length body
      whole = omega (arith, length-request service path payload h k, length-append sent [])

      own : cip_length path payload % 2 ^ 16 ≡ length sent
      own = omega (arith, length-request service path payload h k)
