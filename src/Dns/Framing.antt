-- ===== src/Dns/Framing.antt =====
-- A message that a peer frames is read back, however the stream is cut into pieces.
use s3_storage_node.Common.{
  ℕ, zero, suc, ◌+◌, ◌-◌, ◌*◌, ◌/◌, ◌%◌, ◌≤◌, ◌≡◌, refl, sym, ap, ◌∙◌, ◌⊎◌, inl, inr, Bool, true,
  false, List, [], ◌∷◌, ◌++◌, Option, none, some, arith, ltb, Bool-cases, length, length-append,
}
use s3_storage_node.Common.Result.{Result, ok, err, ok-injective, err_ok_absurd, ◌>>=◌}
use s3_storage_node.Dns.{
  DnsError, closed, os_error, struct_error, out_of_fuel, Sockets, pack_length, frame, next_chunk,
  recv_rounds, recv_exact, read_message,
}

-- A TCP stream without errors: `recv` takes up to as many bytes as asked off the front of what is
-- still to come, and none only at its end.
pub record StreamLaws {S : Type 0} (sockets : Sockets S) (stream : S → List ℕ) : Type 0 where
  pub taken :
      (n : ℕ) (s : S)
      → (chunk : List ℕ) × (s' : S) × (sockets.recv (suc n) s ≡ some (chunk, s'))
        × (stream s ≡ chunk ++ stream s')
        × (length chunk ≤ suc n)
        × ((1 ≤ length chunk) ⊎ (stream s ≡ []))

module _ {S : Type 0} (sockets : Sockets S) (stream : S → List ℕ)
    (laws : StreamLaws sockets stream) where
  -- The bytes are read off the front of the stream.
  abbrev pub Reads : List ℕ → List ℕ → Result DnsError (List ℕ × S) → Type 0
  Reads message rest out = (s' : S) × (out ≡ ok (message, s')) × (stream s' ≡ rest)

  split :
      (a b c d : List ℕ)
      → a ++ b ≡ c ++ d
      → length a ≤ length c
      → (m : List ℕ) × (c ≡ a ++ m) × (b ≡ m ++ d)
  split [] b c d h le = (c, refl, h)
  split (x ∷ a) b [] d h le = absurd (omega (arith, le))
  split (x ∷ a) b (y ∷ c) d h le =
      let p : x ≡ y = cc in
      let q : a ++ b ≡ c ++ d = cc in
      let (m, e, f) = split a b c d q (omega (arith, le)) in (m, cc, f)

  length-rest : (a m : List ℕ) → length (a ++ m) - length a ≡ length m
  length-rest a m = omega (arith, length-append a m)

  -- A round that received a piece, and the others.
  round-Reads :
      (fuel : ℕ) (x : ℕ) (xs rest m : List ℕ) (s s' : S) (c : ℕ) (cs : List ℕ)
      → sockets.recv (suc (length xs)) s ≡ some (c ∷ cs, s')
      → x ∷ xs ≡ (c ∷ cs) ++ m
      → Reads m rest (recv_rounds sockets fuel (length m) s')
      → Reads (x ∷ xs) rest (recv_rounds sockets (suc fuel) (suc (length xs)) s)
  unfolding recv_rounds
  round-Reads fuel x xs rest m s s' c cs e cut (t, r, h) =
      let n : suc (length xs) - length (c ∷ cs) ≡ length m =
        ap (λ l. length l - length (c ∷ cs)) cut ∙ length-rest (c ∷ cs) m in
      rw e (rw n (rw r (t, ap (λ l. ok (l, t)) (sym cut), h)))

  -- From what the first `recv` gave, and the rounds after it.
  piece-Reads :
      (fuel x : ℕ) (xs rest : List ℕ) (s : S)
      → ((m : List ℕ) (s' : S)
          → length m ≤ fuel
          → stream s' ≡ m ++ rest
          → Reads m rest (recv_rounds sockets fuel (length m) s'))
      → suc (length xs) ≤ suc fuel
      → stream s ≡ x ∷ xs ++ rest
      → (chunk : List ℕ) (s' : S) → sockets.recv (suc (length xs)) s ≡ some (chunk, s')
      → stream s ≡ chunk ++ stream s'
      → length chunk ≤ suc (length xs)
      → (1 ≤ length chunk) ⊎ (stream s ≡ [])
      → Reads (x ∷ xs) rest (recv_rounds sockets (suc fuel) (suc (length xs)) s)
  piece-Reads fuel x xs rest s more le h [] s' e cut short (inl p) = absurd (omega (arith, p))
  piece-Reads fuel x xs rest s more le h [] s' e cut short (inr p) = absurd (nonempty (sym p ∙ h))
    where
      nonempty : ◌≡◌ {A = List ℕ} [] (x ∷ xs ++ rest) → ⊥
      nonempty q = cc
  piece-Reads fuel x xs rest s more le h (c ∷ cs) s' e cut short progress =
      let (m, a, b) = split (c ∷ cs) (stream s') (x ∷ xs) rest (sym cut ∙ h) short in
      let n : suc (length xs) ≡ length (c ∷ cs) + length m =
        ap (λ l. length l) a ∙ length-append (c ∷ cs) m in
      round-Reads fuel x xs rest m s s' c cs e a (more m s' (omega (arith, le, n)) b)

  recv_rounds-Reads :
      (fuel : ℕ) (message rest : List ℕ) (s : S)
      → length message ≤ fuel
      → stream s ≡ message ++ rest
      → Reads message rest (recv_rounds sockets fuel (length message) s)
  unfolding recv_rounds
  recv_rounds-Reads fuel [] rest s le h = (s, refl, h)
  recv_rounds-Reads zero (x ∷ xs) rest s le h = absurd (omega (arith, le))
  recv_rounds-Reads (suc fuel) (x ∷ xs) rest s le h =
      let (chunk, s', e, cut, short, progress) = laws.taken (length xs) s in
      piece-Reads fuel x xs rest s (λ m. recv_rounds-Reads fuel m rest) le h chunk s' e cut short
        progress

  two_bytes : (n : ℕ) → n / 256 * 256 + n % 256 ≡ n
  two_bytes n = omega arith

  framed-eq :
      (message framed : List ℕ)
      → ltb (length message) 65536 ≡ true
      → frame message ≡ ok framed
      → length message / 256 ∷ length message % 256 ∷ message ≡ framed
  unfolding frame pack_length
  framed-eq message framed b f = ok-injective (rw b at f)

  too_long :
      (message framed : List ℕ) → ltb (length message) 65536 ≡ false → frame message ≡ ok framed → ⊥
  unfolding frame pack_length
  too_long message framed b f = err_ok_absurd struct_error framed (rw b at f)

  read-framed :
      (message framed rest : List ℕ) (s : S)
      → ltb (length message) 65536 ≡ true
      → length message / 256 ∷ length message % 256 ∷ message ≡ framed
      → stream s ≡ framed ++ rest
      → Reads message rest (read_message sockets s)
  unfolding read_message
  read-framed message framed rest s b e h =
      let header = length message / 256 ∷ length message % 256 ∷ [] in
      let (s₁, r₁, h₁) =
        recv_rounds-Reads 2 header (message ++ rest) s (omega arith)
          (h ∙ ap (λ l. l ++ rest) (sym e)) in
      let (s₂, r₂, h₂) = recv_rounds-Reads (length message) message rest s₁ (omega arith) h₁ in
      rw r₁ (rw (two_bytes (length message)) (s₂, r₂, h₂))

  -- On a stream without errors, however it is cut into pieces, what `_handle_tcp` and
  -- `_forward_tcp` read is the message that was framed at its front, and they read no further.
  pub read_message-frame :
      (message framed rest : List ℕ) (s : S)
      → frame message ≡ ok framed
      → stream s ≡ framed ++ rest
      → Reads message rest (read_message sockets s)
  unfolding frame pack_length read_message
  read_message-frame message framed rest s f h = elim (Bool-cases (ltb (length message) 65536)) [
    | inl b ↦ read-framed message framed rest s b (framed-eq message framed b f) h
    | inr b ↦ absurd (too_long message framed b f)
  ]

abbrev pub ran_out : {A : Type 0} → Result DnsError A → Bool
ran_out (err out_of_fuel) = true
ran_out _ = false

module _ {S : Type 0} (sockets : Sockets S) where
  joined :
      (r : Result DnsError (List ℕ × S)) (chunk : List ℕ)
      → ran_out {A = List ℕ × S} (r >>= λ rest. ok (chunk ++ rest.0, rest.1)) ≡ ran_out r
  joined (ok a) chunk = refl
  joined (err closed) chunk = refl
  joined (err os_error) chunk = refl
  joined (err struct_error) chunk = refl
  joined (err out_of_fuel) chunk = refl

  round-in_time :
      (fuel n : ℕ) (o : Option (List ℕ × S))
      → n ≤ fuel
      → ((m : ℕ) (s : S) → m ≤ fuel → ran_out (recv_rounds sockets fuel m s) ≡ false)
      → ran_out {A = List ℕ × S} (
          next_chunk sockets o >>= λ out.
          recv_rounds sockets fuel (suc n - length out.0) out.1 >>= λ rest.
          ok (out.0 ++ rest.0, rest.1))
        ≡ false
  round-in_time fuel n none le more = refl
  round-in_time fuel n (some ([], s)) le more = refl
  round-in_time fuel n (some (x ∷ xs, s)) le more =
      joined (recv_rounds sockets fuel (suc n - length (x ∷ xs)) s) (x ∷ xs)
      ∙ more (suc n - length (x ∷ xs)) s (omega (arith, le))

  recv_rounds-in_time :
      (fuel n : ℕ) (s : S) → n ≤ fuel → ran_out (recv_rounds sockets fuel n s) ≡ false
  unfolding recv_rounds
  recv_rounds-in_time fuel zero s le = refl
  recv_rounds-in_time zero (suc n) s le = absurd (omega (arith, le))
  recv_rounds-in_time (suc fuel) (suc n) s le =
      round-in_time fuel n (sockets.recv (suc n) s) (omega (arith, le)) (recv_rounds-in_time fuel)

  -- Whatever `recv` returns, `_recv_exact` ends, by its bytes or by an error, after as many rounds
  -- as bytes were asked for at most.
  pub recv_exact-in_time : (n : ℕ) (s : S) → ran_out (recv_exact sockets n s) ≡ false
  recv_exact-in_time n s = recv_rounds-in_time n n s (omega arith)
