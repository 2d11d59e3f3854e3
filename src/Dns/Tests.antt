-- ===== src/Dns/Tests.antt =====
-- The relay at a stream that comes byte by byte.
use s3_storage_node.Common.{
  ℕ, zero, suc, false, ◌≡◌, refl, ◌⊎◌, inl, inr, ◌≤◌, List, [], ◌∷◌, ◌++◌, Option, none, some,
  arith, length,
}
use s3_storage_node.Dns.{Sockets, frame, pack_length, read_message, recv_exact}
use s3_storage_node.Dns.Framing.{StreamLaws, Reads, ran_out, read_message-frame, recv_exact-in_time}

abbrev recv_one : ℕ → List ℕ → Option (List ℕ × List ℕ)
recv_one n [] = some ([], [])
recv_one zero (x ∷ xs) = some ([], x ∷ xs)
recv_one (suc n) (x ∷ xs) = some (x ∷ [], xs)

abbrev sockets : Sockets (List ℕ)
sockets = record {
  recv = recv_one;
  exchange = λ upstream query. none;
  send_to = λ upstream bytes. some bytes;
}

Taken : ℕ → List ℕ → Type 0
Taken n s =
    (chunk : List ℕ) × (s' : List ℕ) × (recv_one (suc n) s ≡ some (chunk, s'))
    × (s ≡ chunk ++ s')
    × (length chunk ≤ suc n)
    × ((1 ≤ length chunk) ⊎ (s ≡ []))

recv_one-Taken : (n : ℕ) (s : List ℕ) → Taken n s
unfolding Taken
recv_one-Taken n [] = ([], [], refl, refl, omega arith, inr refl)
recv_one-Taken n (x ∷ xs) = (x ∷ [], xs, refl, refl, omega arith, inl (omega arith))

stream_laws : StreamLaws sockets (λ s. s)
unfolding Taken
stream_laws = record { taken = recv_one-Taken }

read_message-frame_example :
    Reads sockets
      (λ s. s)
      stream_laws
      (7 ∷ 8 ∷ 9 ∷ [])
      (5 ∷ [])
      (read_message sockets (0 ∷ 3 ∷ 7 ∷ 8 ∷ 9 ∷ 5 ∷ []))
unfolding frame pack_length
read_message-frame_example =
    read_message-frame sockets (λ s. s) stream_laws (7 ∷ 8 ∷ 9 ∷ []) (0 ∷ 3 ∷ 7 ∷ 8 ∷ 9 ∷ [])
      (5 ∷ []) (0 ∷ 3 ∷ 7 ∷ 8 ∷ 9 ∷ 5 ∷ []) refl refl

recv_exact-in_time_example : ran_out (recv_exact sockets 2 (4 ∷ [])) ≡ false
recv_exact-in_time_example = recv_exact-in_time sockets 2 (4 ∷ [])
