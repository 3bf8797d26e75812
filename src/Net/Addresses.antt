-- ===== src/Net/Addresses.antt =====
-- library/drivers/GT_DriverImplementationDetails.{hpp,cpp}: `Address`, and the 32-bit word that the
-- sockets pass to the system for it.
use generic_target.Base.{
  ◌==◌, ℕ, ◌+◌, ◌*◌, ◌/◌, ◌%◌, ◌^◌, ◌<◌, ◌≡◌, refl, ◌↔◌, Bool, true, ◌&&◌, arith,
}

-- `std::array<uint8_t,4>`
pub record Ip : Type 0 where
  pub b0 : ℕ
  pub b1 : ℕ
  pub b2 : ℕ
  pub b3 : ℕ

pub record Address : Type 0 where
  pub ip : Ip
  pub port : ℕ  -- uint16_t

unfoldable pub same_ip : Ip → Ip → Bool
same_ip x y = (x.b0 == y.b0) && ((x.b1 == y.b1) && ((x.b2 == y.b2) && (x.b3 == y.b3)))

-- `Address::operator==`
abbrev pub same_address : Address → Address → Bool
same_address x y = same_ip x.ip y.ip && (x.port == y.port)

-- The word in `SendTo` and `Connect`, and the bytes that `ReceiveFrom` and `Accept` take from one.
unfoldable pub ip_word : Ip → ℕ
ip_word x = x.b0 * 2 ^ 24 + x.b1 * 2 ^ 16 + x.b2 * 2 ^ 8 + x.b3

unfoldable pub word_ip : ℕ → Ip
word_ip w = record {
  b0 = w / 2 ^ 24 % 256;
  b1 = w / 2 ^ 16 % 256;
  b2 = w / 2 ^ 8 % 256;
  b3 = w % 256;
}

pub Ip-ext : (x y : Ip) → x.b0 ≡ y.b0 → x.b1 ≡ y.b1 → x.b2 ≡ y.b2 → x.b3 ≡ y.b3 → x ≡ y
Ip-ext x y p q r s = λ i. record { b0 = p i; b1 = q i; b2 = r i; b3 = s i }

pub same_ip_iff : (x y : Ip) → (same_ip x y ≡ true) ↔ (x ≡ y)
unfolding same_ip
same_ip_iff x y = (
  λ h. Ip-ext x y (ground arith) (ground arith) (ground arith) (ground arith),
  λ e. rw e (ground arith),
)

abbrev pub IsIp : Ip → Type 0
IsIp x = (x.b0 < 256) × (x.b1 < 256) × (x.b2 < 256) × (x.b3 < 256)

-- An address that a datagram is sent to comes back as the source of one: the word determines the
-- four bytes, and fits in 32 bits.
pub word_ip-ip_word : (x : Ip) → IsIp x → (word_ip (ip_word x) ≡ x) × (ip_word x < 2 ^ 32)
unfolding word_ip ip_word
word_ip-ip_word x h =
    let (h0, h1, h2, h3) = h in
    (
      Ip-ext (word_ip (ip_word x)) x (omega (arith, h0, h1, h2, h3)) (omega (arith, h0, h1, h2, h3))
          (omega (arith, h0, h1, h2, h3)) (omega (arith, h0, h1, h2, h3)),
      omega (arith, h0, h1, h2, h3),
    )

pub same_ip_refl : (x : Ip) → same_ip x x ≡ true
same_ip_refl x = (same_ip_iff x x).1 refl

pub same_ip_sym : (x y : Ip) → same_ip x y ≡ same_ip y x
unfolding same_ip
same_ip_sym x y = ground arith

pub same_address_iff : (x y : Address) → (same_address x y ≡ true) ↔ (x ≡ y)
same_address_iff x y = (
  λ h.
      let p : x.ip ≡ y.ip = (same_ip_iff x.ip y.ip).0 (ground arith) in
      let q : x.port ≡ y.port = ground arith in λ i. record { ip = p i; port = q i },
  λ e. rw e (ground (arith, same_ip_refl y.ip)),
)
