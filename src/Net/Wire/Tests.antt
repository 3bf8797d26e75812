-- ===== src/Net/Wire/Tests.antt =====
-- A datagram that comes from 10.0.0.7:5000 and goes back, on a machine with the other byte order.
use generic_target.Base.{
  ◌==◌, if◌then◌else◌, length, ℕ, ◌+◌, ◌*◌, ◌/◌, ◌%◌, ◌^◌, ◌<◌, ◌≡◌, refl, some, List, [], ◌∷◌,
  arith,
}
use generic_target.Base.Int.{ℤ, pos, negsuc}
use generic_target.Net.Addresses.{Address, word_ip}
use generic_target.Net.Wire.{
  Sockaddr, ByteOrder, IsByteOrder, af_inet, from_sockaddr, udp_receive_from, udp_send_to,
}
use generic_target.Net.Wire.Peers.{udp_echo}

abbrev swap16 : ℕ → ℕ
swap16 x = x % 256 * 256 + x / 256 % 256

abbrev swap32 : ℕ → ℕ
swap32 x = x % 256 * 2 ^ 24 + x / 256 % 256 * 2 ^ 16 + x / 2 ^ 16 % 256 * 256 + x / 2 ^ 24 % 256

swap16-swap16 : (x : ℕ) → x < 2 ^ 16 → swap16 (swap16 x) ≡ x
swap16-swap16 x h = omega arith

swap32-swap32 : (x : ℕ) → x < 2 ^ 32 → swap32 (swap32 x) ≡ x
swap32-swap32 x h = omega arith

abbrev little_endian : ByteOrder
little_endian = record { htonl = swap32; ntohl = swap32; htons = swap16; ntohs = swap16 }

little_endian-IsByteOrder : IsByteOrder little_endian
little_endian-IsByteOrder = record {
  ntohl-htonl = swap32-swap32;
  htonl-ntohl = swap32-swap32;
  ntohl_lt = λ x h. omega arith;
  ntohs-htons = swap16-swap16;
  htons-ntohs = swap16-swap16;
  ntohs_lt = λ x h. omega arith;
}

-- 10.0.0.7 is 0a 00 00 07 on the wire, and port 5000 is 13 88.
abbrev sender : Sockaddr
sender = record { family = af_inet; sin_port = 34835; sin_addr = 117440522 }

abbrev peer : Address
peer = record { ip = record { b0 = 10; b1 = 0; b2 = 0; b3 = 7 }; port = 5000 }

source_of_sender : from_sockaddr little_endian sender ≡ peer
unfolding from_sockaddr word_ip
source_of_sender = refl

abbrev arrives : ℕ → ℕ → ℤ × List ℕ × Sockaddr
arrives fd size = (pos 2, 1 ∷ 2 ∷ 0 ∷ [], sender)

abbrev checks_port : ℕ → List ℕ → Sockaddr → ℤ
checks_port fd bytes s = if s.sin_port == 34835 then pos (length bytes) else negsuc 0

udp_echo_example :
    udp_send_to little_endian checks_port (some 3) peer (1 ∷ 2 ∷ 0 ∷ []) (pos 2) ≡ pos 2
unfolding udp_receive_from from_sockaddr word_ip
udp_echo_example =
    udp_echo little_endian little_endian-IsByteOrder checks_port arrives 3 peer [] 100 refl
      (refl, omega arith, omega arith)
