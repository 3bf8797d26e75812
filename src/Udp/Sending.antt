-- ===== src/Udp/Sending.antt =====
-- library/drivers/GT_DriverImplementationDetails.cpp: `SendTo` of `UDPService`.
use generic_target.Base.{
  ltb, if◌then◌else◌, Bool-cases, take, ℕ, ◌≡◌, refl, inl, inr, Bool, true, false, not, ◌&&◌, ◌||◌,
  none, some, List,
}
use generic_target.Base.Int.{is_neg, to_ℕ, eq_ℤ, ℤ, pos, negsuc}
use generic_target.Net.Addresses.{Address}
use generic_target.Net.Sockets.{Kernel, send_to, reset_last_error}
use generic_target.Udp.{UdpService, call_service}

-- `SendTo` of the socket: -1 without a call where the socket is closed.
abbrev pub socket_send_to : Kernel → Address → List ℕ → UdpService → UdpService × ℤ
socket_send_to k dest bytes s = elim s.udp_socket [
  | none ↦ (record s { world = reset_last_error s.world }, negsuc 0)
  | some fd ↦ call_service k (send_to fd dest bytes) s
]

-- `SendTo` with the `size` bytes at `bytes`, or none where `size` is negative: bytes sent and code.
unfoldable pub service_send_to : Kernel → Address → List ℕ → ℤ → UdpService → UdpService × (ℤ × ℕ)
service_send_to k dest bytes size s =
    let enable : Bool =
      ltb 0 (to_ℕ size) || (eq_ℤ size (pos 0) && s.active_conf.allow_zero_length_message) in
    let (t, tx) = socket_send_to k dest (take (to_ℕ size) bytes) s in
    if not (s.is_bound && not (is_neg size))
    then (s, (negsuc 0, s.latest_error_code))
    else if enable
    then (record t { latest_error_code = t.world.errno }, (tx, t.world.errno))
    else (s, (pos 0, s.latest_error_code))

-- `SendTo` returns the error code that the service keeps, whether it sends or not; a datagram
-- without bytes that the configuration does not allow, and a negative size, change nothing.
pub service_send_to-code :
    (k : Kernel) (dest : Address) (bytes : List ℕ) (size : ℤ) (s : UdpService)
    → ((service_send_to k dest bytes size s).1.1
        ≡ (service_send_to k dest bytes size s).0.latest_error_code)
      × (size ≡ pos 0
          → s.active_conf.allow_zero_length_message ≡ false
          → (service_send_to k dest bytes size s).0 ≡ s)
      × (is_neg size ≡ true
          → service_send_to k dest bytes size s ≡ (s, (negsuc 0, s.latest_error_code)))
unfolding service_send_to
service_send_to-code k dest bytes size s = (
  elim (Bool-cases (s.is_bound && not (is_neg size))) [
    | inr b ↦ simp b refl
    | inl b ↦
        elim (Bool-cases
          (ltb 0 (to_ℕ size) || (eq_ℤ size (pos 0) && s.active_conf.allow_zero_length_message))) [
            | inl c ↦ simp (b, c) refl
            | inr c ↦ simp (b, c) refl
          ]
  ],
  zero_length,
  negative size,
)
  where
    zero_length :
        size ≡ pos 0
        → s.active_conf.allow_zero_length_message ≡ false
        → (service_send_to k dest bytes size s).0 ≡ s
    zero_length e f = elim (Bool-cases s.is_bound) [
      | inl b ↦ rw (e, f, b) refl
      | inr b ↦ rw (e, f, b) refl
    ]

    negative :
        (z : ℤ)
        → is_neg z ≡ true
        → service_send_to k dest bytes z s ≡ (s, (negsuc 0, s.latest_error_code))
    negative (pos n) h = absurd (cc h)
    negative (negsuc n) h = elim (Bool-cases s.is_bound) [
      | inl b ↦ simp b refl
      | inr b ↦ simp b refl
    ]
