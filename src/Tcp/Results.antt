-- ===== src/Tcp/Results.antt =====
-- What the number returned by `read` and `write` of a `TcpConnection` means.
use esp32_control_logix.Base.{
  ℕ, zero, suc, ◌≡◌, ◌⊎◌, Bool, true, false, List, length, ◌||◌, not, arith,
}
use esp32_control_logix.Base.Int.{ℤ, pos, negsuc}
use esp32_control_logix.Status.{closed, invalid_arg, error, to_int}
use esp32_control_logix.Tcp.{Platform, Tcp, negative, connected, is_blocked, is_broken, read, write}

module _ {P : Type 0} (p : Platform P) (c : Tcp) (w : P) where
  -- The connection is established and has a socket.
  abbrev usable : Bool
  usable = not (negative c.fd || not (connected c))

  -- The results of `read`, by the number returned.
  pub record ReadMeans (len : ℕ) (r : ℤ × List ℕ × Tcp × P) : Type 0 where
    -- A number of bytes: so many came in, these are in the buffer, and the connection stays.
    pub some_bytes :
        (n : ℕ)
        → r.0 ≡ pos (suc n)
        → (usable ≡ true)
          × ((p.recv w c.fd len).0 ≡ pos (suc n))
          × (r.1 ≡ (p.recv w c.fd len).1)
          × (r.2 ≡ c)
    -- 0: the socket has no data yet, and the connection stays.
    pub later :
        r.0 ≡ pos zero
        → (usable ≡ true)
          × (negative (p.recv w c.fd len).0 ≡ true)
          × (is_blocked (p.errno (p.recv w c.fd len).2) ≡ true)
          × (r.2 ≡ c)
    -- `Closed`: the connection could not be used, and no socket was touched; or the peer has closed
    -- it, and it is not established any more.
    pub over :
        r.0 ≡ to_int closed
        → ((usable ≡ false) × (r.2 ≡ c) × (r.3 ≡ w))
          ⊎ ((usable ≡ true) × ((p.recv w c.fd len).0 ≡ pos zero) × (connected r.2 ≡ false))
    -- `InvalidArg`: there is no room to read into, and no socket was touched.
    pub no_room : r.0 ≡ to_int invalid_arg → (len ≡ 0) × (r.2 ≡ c) × (r.3 ≡ w)
    -- `Error`: the socket failed in another way, and the connection stays.
    pub failed :
        r.0 ≡ to_int error
        → (usable ≡ true)
          × (negative (p.recv w c.fd len).0 ≡ true)
          × (is_blocked (p.errno (p.recv w c.fd len).2) ≡ false)
          × (r.2 ≡ c)
    -- There is no other result.
    pub known :
        (n : ℕ)
        → r.0 ≡ negsuc n
        → (r.0 ≡ to_int closed) ⊎ (r.0 ≡ to_int invalid_arg) ⊎ (r.0 ≡ to_int error)

  -- On every branch, what `read` returns tells what has happened: a number above 0 that as many
  -- bytes came in from the socket, 0 that the socket would block, `Closed` that the connection was
  -- not established (and nothing was done) or that the peer has closed it (and it is not
  -- established from now on), `InvalidArg` that the length was 0, and `Error` that the socket
  -- failed otherwise; there is no other negative result.
  pub read-ReadMeans : (len : ℕ) → ReadMeans len (read p c w len)
  unfolding read
  read-ReadMeans len = record {
    some_bytes = λ n f. ground (arith, f);
    later = λ f. ground (arith, f);
    over = λ f. ground (arith, f);
    no_room = λ f. ground (arith, f);
    failed = λ f. ground (arith, f);
    known = λ n f. ground (arith, f);
  }

  -- The results of `write`, by the number returned.
  pub record WriteMeans (bs : List ℕ) (r : ℤ × Tcp × P) : Type 0 where
    -- A number of bytes: so many were sent, and the connection stays.
    pub some_bytes :
        (n : ℕ)
        → r.0 ≡ pos (suc n)
        → (usable ≡ true) × ((p.send w c.fd bs).0 ≡ pos (suc n)) × (r.1 ≡ c)
    -- 0: the socket has no room, and the connection stays.
    pub later :
        r.0 ≡ pos zero
        → (usable ≡ true)
          × (((p.send w c.fd bs).0 ≡ pos zero)
              ⊎ ((negative (p.send w c.fd bs).0 ≡ true)
                  × (is_blocked (p.errno (p.send w c.fd bs).1) ≡ true)))
          × (r.1 ≡ c)
    -- `Closed`: the connection could not be used, and no socket was touched; or the peer has broken
    -- it, and it is not established any more.
    pub over :
        r.0 ≡ to_int closed
        → ((usable ≡ false) × (r.1 ≡ c) × (r.2 ≡ w))
          ⊎ ((usable ≡ true)
              × (negative (p.send w c.fd bs).0 ≡ true)
              × (is_broken (p.errno (p.send w c.fd bs).1) ≡ true)
              × (connected r.1 ≡ false))
    -- `InvalidArg`: there is nothing to send, and no socket was touched.
    pub nothing_given : r.0 ≡ to_int invalid_arg → (length bs ≡ 0) × (r.1 ≡ c) × (r.2 ≡ w)
    -- `Error`: the socket failed in another way, and the connection stays.
    pub failed :
        r.0 ≡ to_int error
        → (usable ≡ true)
          × (negative (p.send w c.fd bs).0 ≡ true)
          × (is_blocked (p.errno (p.send w c.fd bs).1) ≡ false)
          × (is_broken (p.errno (p.send w c.fd bs).1) ≡ false)
          × (r.1 ≡ c)
    -- There is no other result.
    pub known :
        (n : ℕ)
        → r.0 ≡ negsuc n
        → (r.0 ≡ to_int closed) ⊎ (r.0 ≡ to_int invalid_arg) ⊎ (r.0 ≡ to_int error)

  -- On every branch, what `write` returns tells what has happened: a number above 0 that as many
  -- bytes went out on the socket, 0 that the socket has no room, `Closed` that the connection was
  -- not established (and nothing was done) or that the peer has broken it (and it is not
  -- established from now on), `InvalidArg` that no bytes were given, and `Error` that the socket
  -- failed otherwise; there is no other negative result.
  pub write-WriteMeans : (bs : List ℕ) → WriteMeans bs (write p c w bs)
  unfolding write
  write-WriteMeans bs = record {
    some_bytes = λ n f. ground (arith, f);
    later = λ f. ground (arith, f);
    over = λ f. ground (arith, f);
    nothing_given = λ f. ground (arith, f);
    failed = λ f. ground (arith, f);
    known = λ n f. ground (arith, f);
  }
