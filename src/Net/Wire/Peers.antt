-- ===== src/Net/Wire/Peers.antt =====
-- Addresses of peers go through the system unchanged.
use generic_target.Base.{
  Bool-cases, take, ℕ, ◌%◌, ◌^◌, ◌<◌, ◌≡◌, refl, sym, ap, ◌∙◌, inl, inr, true, false, Option, none,
  some, List, arith,
}
use generic_target.Base.Int.{is_neg, to_ℕ, ℤ, pos, negsuc}
use generic_target.Net.Addresses.{Address, IsIp, ip_word, word_ip, word_ip-ip_word}
use generic_target.Net.Wire.{
  Sockaddr, ByteOrder, IsByteOrder, af_inet, to_sockaddr, from_sockaddr, udp_send_to,
  udp_receive_from, tcp_connect, tcp_accept,
}

-- The addresses that the system stores.
abbrev pub IsSockaddr : Sockaddr → Type 0
IsSockaddr s = (s.family ≡ af_inet) × (s.sin_port < 2 ^ 16) × (s.sin_addr < 2 ^ 32)

small : (x : ℕ) → x < 2 ^ 16 → x % 2 ^ 16 ≡ x
small x h = omega arith

ip_word-word_ip : (w : ℕ) → w < 2 ^ 32 → ip_word (word_ip w) ≡ w
unfolding ip_word word_ip
ip_word-word_ip w h = omega arith

module _ (o : ByteOrder) (v : IsByteOrder o) where
  pub from_sockaddr-to_sockaddr :
      (a : Address) → IsIp a.ip → a.port < 2 ^ 16 → from_sockaddr o (to_sockaddr o a) ≡ a
  unfolding from_sockaddr to_sockaddr
  from_sockaddr-to_sockaddr a h p =
      let (w, b) = word_ip-ip_word a.ip h in
      let q : word_ip (o.ntohl (o.htonl (ip_word a.ip))) ≡ a.ip =
        ap word_ip (v.ntohl-htonl (ip_word a.ip) b) ∙ w in
      let r : o.ntohs (o.htons a.port) % 2 ^ 16 ≡ a.port =
        ap (λ x. x % 2 ^ 16) (v.ntohs-htons a.port p) ∙ small a.port p in
      λ i. record { ip = q i; port = r i }

  pub to_sockaddr-from_sockaddr :
      (s : Sockaddr) → IsSockaddr s → to_sockaddr o (from_sockaddr o s) ≡ s
  unfolding from_sockaddr to_sockaddr
  to_sockaddr-from_sockaddr s (f, p, a) =
      let q : o.htons (o.ntohs s.sin_port % 2 ^ 16) ≡ s.sin_port =
        ap o.htons (small (o.ntohs s.sin_port) (v.ntohs_lt s.sin_port p))
        ∙ v.htons-ntohs s.sin_port p in
      let r : o.htonl (ip_word (word_ip (o.ntohl s.sin_addr))) ≡ s.sin_addr =
        ap o.htonl (ip_word-word_ip (o.ntohl s.sin_addr) (v.ntohl_lt s.sin_addr a))
        ∙ v.htonl-ntohl s.sin_addr a in
      λ i. record { family = sym f i; sin_port = q i; sin_addr = r i }

  -- What has come from a peer goes back to it: where `ReceiveFrom` returns a length, `SendTo` of the
  -- bytes to the source calls the system with the address that the system has stored, and with as
  -- many of the stored bytes.
  pub udp_echo :
      (sendto : ℕ → List ℕ → Sockaddr → ℤ) (recvfrom : ℕ → ℕ → ℤ × List ℕ × Sockaddr) (fd : ℕ)
      (source : Address) (bytes : List ℕ) (max_size : ℕ)
      → is_neg (recvfrom fd max_size).0 ≡ false
      → IsSockaddr (recvfrom fd max_size).2
      → let (rx, stored, addr) = recvfrom fd max_size in
        let (n, received, peer) =
          udp_receive_from o recvfrom (some fd) source bytes (pos max_size) in
        udp_send_to o sendto (some fd) peer received n ≡ sendto fd (take (to_ℕ rx) stored) addr
  unfolding udp_receive_from udp_send_to
  udp_echo sendto recvfrom fd source bytes max_size h s =
      rw (h, h, to_sockaddr-from_sockaddr (recvfrom fd max_size).2 s) refl

  -- Where nothing is received, the source is the one before.
  udp_receive_from-failed :
      (recvfrom : ℕ → ℕ → ℤ × List ℕ × Sockaddr) (socket : Option ℕ) (source : Address)
      (bytes : List ℕ) (max_size : ℤ)
      → is_neg (udp_receive_from o recvfrom socket source bytes max_size).0 ≡ true
      → (udp_receive_from o recvfrom socket source bytes max_size).2 ≡ source
  unfolding udp_receive_from
  udp_receive_from-failed recvfrom socket source bytes (negsuc m) h = refl
  udp_receive_from-failed recvfrom none source bytes (pos m) h = refl
  udp_receive_from-failed recvfrom (some fd) source bytes (pos m) h =
      elim (Bool-cases (is_neg (recvfrom fd m).0)) [
        | inl b ↦ simp b refl
        | inr b ↦ absurd (failed b h)
      ]
    where
      failed :
          is_neg (recvfrom fd m).0 ≡ false
          → is_neg (udp_receive_from o recvfrom (some fd) source bytes (pos m)).0 ≡ true
          → ⊥
      failed b e =
          let k : is_neg (udp_receive_from o recvfrom (some fd) source bytes (pos m)).0 ≡ false =
            rw b b in
          cc (k, e)

  -- `Connect` to the address of an accepted client passes on what the system stored for it.
  pub connect-accept :
      (connect : ℕ → Sockaddr → ℤ) (accept : Option ℕ → ℤ × Sockaddr) (fd : ℕ) (server : Option ℕ)
      → is_neg (accept server).0 ≡ false
      → IsSockaddr (accept server).1
      → tcp_connect o connect (some fd) (tcp_accept o accept server).peer
        ≡ connect fd (accept server).1
  unfolding tcp_accept tcp_connect
  connect-accept connect accept fd server h s =
      rw (h, to_sockaddr-from_sockaddr (accept server).1 s) refl
