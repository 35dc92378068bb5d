-- ===== src/Tag/Packets.antt =====
-- The packets that read a tag.
use esp32_control_logix.Base.{
  ℕ, ◌+◌, ◌%◌, ◌^◌, ◌≤◌, ◌≡◌, refl, sym, ap, ◌∙◌, some, List, [], ◌∷◌, length, take, replicate,
  take-store_start, arith,
}
use esp32_control_logix.Encapsulation.{send_rr_data, u16_bytes, put_u16}
use esp32_control_logix.Cip.{
  null_address, unconnected_data, max_symbolic_name, tag_service_code, read_tag,
}
use esp32_control_logix.Cip.Symbolic.{symbolic_bytes, append_symbolic-eq, length-symbolic_bytes}
use esp32_control_logix.Packet.{item, frame, cip_request}
use esp32_control_logix.Message.{Slice}
use esp32_control_logix.Message.Request.{content, request_frame, IsSlice}
use esp32_control_logix.Message.Progress.{IsRequest}
use esp32_control_logix.Tag.{path_of}

-- A Read Tag request: the service on the tag's symbolic path, with the number of elements.
abbrev pub read_frame : ℕ → ℕ → List ℕ → ℕ → List ℕ
read_frame session context name element_count = frame send_rr_data session context (
    item null_address []
    ∷ item unconnected_data (
        cip_request (tag_service_code read_tag) (symbolic_bytes name)
          (u16_bytes (element_count % 2 ^ 16)))
    ∷ [])

-- The two bytes that `startRead` sends as data.
abbrev pub count_slice : ℕ → Slice
count_slice element_count = record {
  bytes = some (put_u16 (replicate 2 0) 0 (element_count % 2 ^ 16));
  len = 2;
}

pub count-content : (n : ℕ) → content (count_slice n) ≡ u16_bytes (n % 2 ^ 16)
unfolding put_u16
count-content n = refl

module _ (name : List ℕ) (short : length name ≤ max_symbolic_name) where
  abbrev blank : List ℕ
  blank = replicate 128 0

  path_fits : length (symbolic_bytes name) ≤ length blank
  path_fits = ground (arith, length-symbolic_bytes name)

  pub path-len : (path_of name).len ≡ length (symbolic_bytes name)
  path-len = ap (λ r. r.1) (append_symbolic-eq blank 0 name)

  pub path-content : content (path_of name) ≡ symbolic_bytes name
  path-content =
      ap (λ r. take r.1 r.0) (append_symbolic-eq blank 0 name)
      ∙ take-store_start blank (symbolic_bytes name) path_fits

  -- A name of at most 120 characters makes a request that `send` takes, with any whole data that
  -- leave the request its size.
  pub tag-IsRequest :
      (payload : Slice)
      → IsSlice payload
      → length (symbolic_bytes name) + payload.len ≤ 254
      → IsRequest (path_of name) payload
  tag-IsRequest payload whole small = record {
    path_whole = ap length path-content ∙ sym path-len;
    payload_whole = whole;
    even = ground (arith, path-len, length-symbolic_bytes name);
    small = omega (arith, path-len, small);
  }

  pub path-IsRequest : (n : ℕ) → IsRequest (path_of name) (count_slice n)
  path-IsRequest n =
      tag-IsRequest (count_slice n) (ap length (count-content n)) (omega (arith, path_fits))

  -- The packet that such a request makes.
  pub request-read_frame :
      (session context n : ℕ)
      → request_frame session context (tag_service_code read_tag) (path_of name) (count_slice n)
        ≡ read_frame session context name n
  request-read_frame session context n =
      ap
        (λ xs. frame send_rr_data session context (
          item null_address []
          ∷ item unconnected_data
              (cip_request (tag_service_code read_tag) xs (content (count_slice n)))
          ∷ []))
        path-content
      ∙ ap
          (λ xs. frame send_rr_data session context (
            item null_address []
            ∷ item unconnected_data
                (cip_request (tag_service_code read_tag) (symbolic_bytes name) xs)
            ∷ []))
          (count-content n)
