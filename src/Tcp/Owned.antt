-- ===== src/Tcp/Owned.antt =====
-- The socket of a `TcpConnection` has one owner: none is lost, and none is closed twice.
use esp32_control_logix.Base.{ℕ, ◌≡◌, refl, ◌∙◌, inl, inr, true, List, ◌∷◌, Bool-cases, arith}
use esp32_control_logix.Base.Int.{ℤ, pos, negsuc, ℤ-cases}
use esp32_control_logix.Tcp.{
  Platform, Tcp, negative, close, open_socket, connect, finish_connect, poll_connect, poll, read,
  write,
}

-- What lwIP documents of its descriptors: `socket` opens one or fails, `close` closes one that is
-- open, and no other call opens or closes any. `held` are the open descriptors, the last one first.
pub record Descriptors {P : Type 0} (p : Platform P) : Type 0 where
  pub held : P → List ℤ
  pub opens : (w : P) (n : ℕ) → (p.socket w).0 ≡ pos n → held (p.socket w).1 ≡ pos n ∷ held w
  pub refuses : (w : P) (n : ℕ) → (p.socket w).0 ≡ negsuc n → held (p.socket w).1 ≡ held w
  pub shuts :
      (w : P) (fd : ℤ) (rest : List ℤ) → held w ≡ fd ∷ rest → held (p.close_socket w fd) ≡ rest
  pub flags_keep : (w : P) (fd : ℤ) → held (p.get_flags w fd).1 ≡ held w
  pub set_keeps : (w : P) (fd flags : ℤ) → held (p.set_nonblocking w fd flags).1 ≡ held w
  pub connect_keeps : (w : P) (fd : ℤ) (ip port : ℕ) → held (p.connect w fd ip port).1 ≡ held w
  pub select_keeps : (w : P) (fd : ℤ) → held (p.select_writable w fd).1 ≡ held w
  pub error_keeps : (w : P) (fd : ℤ) → held (p.socket_error w fd).2 ≡ held w
  pub recv_keeps : (w : P) (fd : ℤ) (len : ℕ) → held (p.recv w fd len).2 ≡ held w
  pub send_keeps : (w : P) (fd : ℤ) (bs : List ℕ) → held (p.send w fd bs).1 ≡ held w
  pub millis_keeps : (w : P) → held (p.millis w).1 ≡ held w

-- The descriptors of the rest of the program, with the object's own before them if it has one.
abbrev pub owned : ℤ → List ℤ → List ℤ
owned (pos n) base = pos n ∷ base
owned (negsuc n) base = base

module _ {P : Type 0} (p : Platform P) (d : Descriptors p) (base : List ℤ) where
  abbrev pub Owns : Tcp → P → Type 0
  Owns c w = d.held w ≡ owned c.fd base

  -- After `close` only the rest of the program has descriptors.
  pub close-base : (c : Tcp) (w : P) → Owns c w → d.held (close p c w).1 ≡ base
  unfolding close
  close-base c w h = elim (ℤ-cases c.fd) [
    | inl (n, e) ↦ ground (arith, e, d.shuts w (pos n) base (ground (arith, h, e)))
    | inr (n, e) ↦ ground (arith, e, h)
  ]

  close-Owns : (c : Tcp) (w : P) → Owns c w → Owns (close p c w).0 (close p c w).1
  unfolding close
  close-Owns c w h = close-base c w h

  close-negative : (c : Tcp) (w : P) → negative (close p c w).0.fd ≡ true
  unfolding close
  close-negative c w = refl

  open_socket-Owns :
      (c : Tcp) (w : P) (ip port timeout_ms : ℕ)
      → negative c.fd ≡ true
      → Owns c w
      → let r = open_socket p c w ip port timeout_ms in Owns r.1 r.2
  unfolding open_socket
  open_socket-Owns c w ip port timeout_ms none_open h =
      let (fd, w1) = p.socket w in
      let (flags, w2) = p.get_flags w1 fd in
      let (set_rc, w3) = p.set_nonblocking w2 fd flags in
      let (rc, w4) = p.connect w3 fd ip port in
      let k2 = d.flags_keep w1 fd in
      let k3 = d.set_keeps w2 fd flags in
      let k4 = d.connect_keeps w3 fd ip port in
      let k5 = d.millis_keeps w4 in
      let rest : d.held w ≡ base = ground (arith, none_open, h) in
      elim (ℤ-cases fd) [
        | inr (n, e) ↦ ground (arith, none_open, h, e, d.refuses w n e)
        | inl (n, e) ↦
            let h1 : d.held w1 ≡ fd ∷ base = ground (arith, d.opens w n e, e, rest) in
            let s2 = d.shuts w2 fd base (k2 ∙ h1) in
            let s3 = d.shuts w3 fd base (k3 ∙ k2 ∙ h1) in
            let s4 = d.shuts w4 fd base (k4 ∙ k3 ∙ k2 ∙ h1) in
            let h5 = k5 ∙ k4 ∙ k3 ∙ k2 ∙ h1 in ground (arith, none_open, e, s2, s3, s4, h5)
      ]

  connect-Owns :
      (c : Tcp) (w : P) (ip port timeout_ms : ℕ)
      → Owns c w
      → let r = connect p c w ip port timeout_ms in Owns r.1 r.2
  unfolding connect
  connect-Owns c w ip port timeout_ms h = elim (Bool-cases (negative c.fd)) [
    | inl e ↦ ground (arith, e, h, open_socket-Owns c w ip port timeout_ms e h)
    | inr e ↦
        let shut = close-Owns c w h in
        let none_open : negative (close p c w).0.fd ≡ true = close-negative c w in
        ground (
          arith,
          e,
          shut,
          open_socket-Owns (close p c w).0 (close p c w).1 ip port timeout_ms none_open shut,
        )
  ]

  finish_connect-Owns : (c : Tcp) (w : P) → Owns c w → let r = finish_connect p c w in Owns r.1 r.2
  unfolding finish_connect
  finish_connect-Owns c w h =
      let (rc, err, w') = p.socket_error w c.fd in
      let k : Owns c w' = d.error_keeps w c.fd ∙ h in ground (arith, k, close-Owns c w' k)

  poll-Owns : (c : Tcp) (w : P) → Owns c w → let r = poll p c w in Owns r.1 r.2
  unfolding poll poll_connect
  poll-Owns c w h =
      let w1 = (p.select_writable w c.fd).1 in
      let k1 : Owns c w1 = d.select_keeps w c.fd ∙ h in
      let w2 = (p.millis w1).1 in
      let k2 : Owns c w2 = d.millis_keeps w1 ∙ k1 in
      ground (arith, h, k1, k2, close-Owns c w1 k1, close-Owns c w2 k2, finish_connect-Owns c w1 k1)

  read-Owns : (c : Tcp) (w : P) (len : ℕ) → Owns c w → let r = read p c w len in Owns r.2 r.3
  unfolding read
  read-Owns c w len h = ground (arith, h, d.recv_keeps w c.fd len)

  write-Owns : (c : Tcp) (w : P) (bs : List ℕ) → Owns c w → let r = write p c w bs in Owns r.1 r.2
  unfolding write
  write-Owns c w bs h = ground (arith, h, d.send_keeps w c.fd bs)

  -- One call on the object.
  pub data Step : Tcp → P → Tcp → P → Type 0 where
    opened :
        {c : Tcp} {w : P} (ip port timeout_ms : ℕ)
        → Step c w (connect p c w ip port timeout_ms).1 (connect p c w ip port timeout_ms).2
    polled : {c : Tcp} {w : P} → Step c w (poll p c w).1 (poll p c w).2
    received : {c : Tcp} {w : P} (len : ℕ) → Step c w (read p c w len).2 (read p c w len).3
    sent : {c : Tcp} {w : P} (bs : List ℕ) → Step c w (write p c w bs).1 (write p c w bs).2
    shut : {c : Tcp} {w : P} → Step c w (close p c w).0 (close p c w).1

  pub data Run : Tcp → P → Tcp → P → Type 0 where
    stay : {c : Tcp} {w : P} → Run c w c w
    call : {c c1 c2 : Tcp} {w w1 w2 : P} → Step c w c1 w1 → Run c1 w1 c2 w2 → Run c w c2 w2

  step-Owns : {c : Tcp} {w : P} {c' : Tcp} {w' : P} → Step c w c' w' → Owns c w → Owns c' w'
  step-Owns {c} {w} (opened ip port timeout_ms) h = connect-Owns c w ip port timeout_ms h
  step-Owns {c} {w} polled h = poll-Owns c w h
  step-Owns {c} {w} (received len) h = read-Owns c w len h
  step-Owns {c} {w} (sent bs) h = write-Owns c w bs h
  step-Owns {c} {w} shut h = close-Owns c w h

  -- After any sequence of `connect`, `poll`, `read`, `write` and `close`, on every branch of each,
  -- the open descriptors are those of the rest of the program and, in front of them, the one that
  -- the object holds, if it holds one; and a `close` then leaves those of the rest of the program.
  -- So no descriptor of the object is lost, and none is closed that it does not hold.
  pub Run-Owns :
      {c c' : Tcp} {w w' : P}
      → Run c w c' w'
      → Owns c w
      → Owns c' w' × (d.held (close p c' w').1 ≡ base)
  Run-Owns {c} {w = w} stay h = (h, close-base c w h)
  Run-Owns (call s r) h = Run-Owns r (step-Owns s h)
