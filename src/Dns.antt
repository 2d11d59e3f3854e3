-- ===== src/Dns.antt =====
-- `dns_proxy.py`: the framing of messages on TCP, and the choice of an upstream. The sockets are
-- arguments.
pub mod Framing
mod Tests
use s3_storage_node.Common.{
  ℕ, zero, suc, ◌+◌, ◌-◌, ◌*◌, ◌/◌, ◌%◌, String, Bool, true, false, List, [], ◌∷◌, ◌++◌, Option,
  none, some, ltb, if◌then◌else◌, length,
}
use s3_storage_node.Common.Result.{Result, ok, err, ◌>>=◌, or_raise}

-- `DnsProxyError` of a peer that closed, any OSError, and `struct.error`.
pub data DnsError : Type 0 where
  closed os_error struct_error out_of_fuel : DnsError

-- What the relay uses of sockets, whose states are `S`: `recv`, which returns at most
-- the bytes asked for, and where `none` is an OSError; a
-- datagram that is sent to an upstream and answered; and a connection to an upstream on which the
-- bytes were sent.
pub record Sockets (S : Type 0) : Type 0 where
  pub recv : ℕ → S → Option (List ℕ × S)
  pub exchange : String → List ℕ → Option (List ℕ)
  pub send_to : String → List ℕ → Option S

-- `struct.pack("!H", n)`
unfoldable pub pack_length : ℕ → Result DnsError (List ℕ)
pack_length n = if ltb n 65536 then ok (n / 256 ∷ n % 256 ∷ []) else err struct_error

-- `struct.unpack("!H", bytes)[0]`
unfoldable pub unpack_length : List ℕ → Result DnsError ℕ
unpack_length (a ∷ b ∷ []) = ok (a * 256 + b)
unpack_length _ = err struct_error

-- A message with its length before it.
unfoldable pub frame : List ℕ → Result DnsError (List ℕ)
unfolding pack_length
frame message = pack_length (length message) >>= λ header. ok (header ++ message)

module _ {S : Type 0} (sockets : Sockets S) where
  -- From what `recv` returned: nothing is the end of the stream.
  abbrev pub next_chunk : Option (List ℕ × S) → Result DnsError (List ℕ × S)
  next_chunk none = err os_error
  next_chunk (some ([], s)) = err closed
  next_chunk (some (x ∷ xs, s)) = ok (x ∷ xs, s)

  -- The loop of `_recv_exact`, with the bytes that remain.
  unfoldable pub recv_rounds : ℕ → ℕ → S → Result DnsError (List ℕ × S)
  recv_rounds fuel zero s = ok ([], s)
  recv_rounds zero (suc n) s = err out_of_fuel
  recv_rounds (suc fuel) (suc n) s = next_chunk (sockets.recv (suc n) s) >>= λ out.
      recv_rounds fuel (suc n - length out.0) out.1 >>= λ rest. ok (out.0 ++ rest.0, rest.1)

  -- `_recv_exact`: each round takes a byte at least.
  abbrev pub recv_exact : ℕ → S → Result DnsError (List ℕ × S)
  recv_exact n s = recv_rounds n n s

  -- A message with its length before it, as `_handle_tcp` and `_forward_tcp` read it.
  unfoldable pub read_message : S → Result DnsError (List ℕ × S)
  unfolding recv_rounds unpack_length
  read_message s =
      recv_exact 2 s >>= λ header. unpack_length header.0 >>= λ n. recv_exact n header.1

  -- `_forward_udp`: the first upstream that answers.
  unfoldable pub forward_udp : List String → List ℕ → Option (List ℕ)
  forward_udp [] query = none
  forward_udp (upstream ∷ rest) query = elim (sockets.exchange upstream query) [
    | some response ↦ some response
    | none ↦ forward_udp rest query
  ]

  abbrev pub ask_tcp : String → List ℕ → Result DnsError (List ℕ)
  ask_tcp upstream framed = or_raise (sockets.send_to upstream framed) os_error >>= λ s.
      read_message s >>= λ out. ok out.0

  abbrev pub forward_framed : List String → List ℕ → Option (List ℕ)
  forward_framed [] framed = none
  forward_framed (upstream ∷ rest) framed = elim (ask_tcp upstream framed) [
    | ok response ↦ some response
    | err e ↦ forward_framed rest framed
  ]

  -- `_forward_tcp`, which raises on a query that is too long to be framed.
  unfoldable pub forward_tcp : List String → List ℕ → Result DnsError (Option (List ℕ))
  unfolding frame read_message
  forward_tcp upstreams query = frame query >>= λ framed. ok (forward_framed upstreams framed)

  -- `_handle_tcp` up to the bytes that it sends back, if any.
  abbrev pub answer : List String → List ℕ → Result DnsError (Option (List ℕ))
  answer upstreams query = forward_tcp upstreams query >>= λ found. elim found [
    | none ↦ ok none
    | some response ↦ frame response >>= λ framed. ok (some framed)
  ]

  abbrev pub handle_read :
      List String → Result DnsError (List ℕ × S) → Result DnsError (Option (List ℕ))
  handle_read upstreams (err e) = ok none
  handle_read upstreams (ok (query, s)) = answer upstreams query

  unfoldable pub handle_tcp : List String → S → Result DnsError (Option (List ℕ))
  unfolding forward_tcp frame read_message
  handle_tcp upstreams s = handle_read upstreams (read_message s)
