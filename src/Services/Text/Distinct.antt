-- ===== src/Services/Text/Distinct.antt =====
-- Configurations that differ are printed differently.
use generic_target.Base.{
  ◌==◌, All, ℕ, ◌≡◌, refl, sym, ap, ◌∙◌, ◌≢◌, Bool, true, false, List, [], ◌∷◌, ◌++◌, arith,
}
use generic_target.Base.Int.{eq_ℤ, ℤ, pos, negsuc}
use generic_target.Base.Bytes.{codes, same_bytes}
use generic_target.Base.Texts.{
  Free, cons_inj, split_inj, first_inj, append_cancel, decimal-Free, decimal_inj,
}
use generic_target.Net.Addresses.{same_ip, same_ip_refl}
use generic_target.Net.Text.Read.{dotted_inj}
use generic_target.Udp.{UdpServiceConfiguration, same_bool, same_configuration as same_udp}
use generic_target.Tcp.{TcpServiceConfiguration, same_configuration as same_tcp}
use generic_target.Services.Text.{
  signed, quotation_mark, labelled, quoted, udp_labels, udp_values, udp_configuration_to_string,
  tcp_configuration_to_string,
}
use generic_target.Services.Text.Labels.{
  IsPlain, bit-Free, bit_inj, comma, dotted-Free, labelled-Free, labelled_inj, quote, signed-Free,
  signed_inj,
}

-- The three parts of a text.
quoted_inj :
    (x y : ℤ) (m n r s : List ℕ)
    → Free quotation_mark r
    → Free quotation_mark s
    → quoted x m r ≡ quoted y n s
    → (x ≡ y) × (m ≡ n) × (r ≡ s)
unfolding quoted
quoted_inj x y m n r s hr hs e =
    let (p, q) = split_inj quotation_mark (head x m) (head y n) r s hr hs e in
    let (u, v) =
      first_inj b',' (signed x) (signed y) (device m) (device n) (signed-Free b',' comma x)
        (signed-Free b',' comma y) refl refl
        (append_cancel (codes "port=") (signed x ++ device m) (signed y ++ device n) p) in
    (
      signed_inj x y u,
      (cons_inj
          (append_cancel (codes ", deviceName=") (quotation_mark ∷ m) (quotation_mark ∷ n) v)).1,
      q,
    )
  where
    device : List ℕ → List ℕ
    device name = codes ", deviceName=" ++ (quotation_mark ∷ name)

    head : ℤ → List ℕ → List ℕ
    head port name = codes "port=" ++ (signed port ++ device name)

-- The operators say that a configuration is the same as itself.
eq_ℤ_refl : (x : ℤ) → eq_ℤ x x ≡ true
eq_ℤ_refl (pos n) = ground arith
eq_ℤ_refl (negsuc n) = ground arith

same_bytes_refl : (xs : List ℕ) → same_bytes xs xs ≡ true
same_bytes_refl [] = refl
same_bytes_refl (x ∷ xs) = ground (arith, same_bytes_refl xs)

same_bool_refl : (b : Bool) → same_bool b b ≡ true
same_bool_refl true = refl
same_bool_refl false = refl

eq_ℤ_path : {x y : ℤ} → x ≡ y → eq_ℤ x y ≡ true
eq_ℤ_path {x} e = ap (eq_ℤ x) (sym e) ∙ eq_ℤ_refl x

same_bytes_path : {xs ys : List ℕ} → xs ≡ ys → same_bytes xs ys ≡ true
same_bytes_path {xs} e = ap (same_bytes xs) (sym e) ∙ same_bytes_refl xs

same_bool_path : {a b : Bool} → a ≡ b → same_bool a b ≡ true
same_bool_path {a} e = ap (same_bool a) (sym e) ∙ same_bool_refl a

same_number : {m n : ℕ} → m ≡ n → (m == n) ≡ true
same_number e = ground arith

udp_values-Free : (c : ℕ) → IsPlain c → (x : UdpServiceConfiguration) → All (Free c) (udp_values x)
udp_values-Free c p x = (
  signed-Free c p x.socket_priority,
  (
    bit-Free c p x.allow_broadcast,
    (
      bit-Free c p x.allow_zero_length_message,
      (
        bit-Free c p x.multicast_all,
        (
          bit-Free c p x.multicast_loop,
          (decimal-Free c x.multicast_ttl p.0, (dotted-Free c p x.multicast_interface_address, tt)),
        ),
      ),
    ),
  ),
)

-- The message about an ambiguous configuration never prints the two configurations alike: where
-- `operator==` of UDPServiceConfiguration tells them apart, so do their texts.
pub udp_configuration_to_string_ne :
    (x y : UdpServiceConfiguration)
    → same_udp x y ≡ false
    → udp_configuration_to_string x ≢ udp_configuration_to_string y
unfolding udp_configuration_to_string same_udp
udp_configuration_to_string_ne x y differ e =
    let (p, n, t) =
      quoted_inj x.port y.port x.device_name y.device_name _ _ (no_quote x) (no_quote y) e in
    let vs =
      labelled_inj udp_labels (udp_values x) (udp_values y)
        (refl, (refl, (refl, (refl, (refl, (refl, (refl, tt))))))) refl refl
        (udp_values-Free b',' comma x) (udp_values-Free b',' comma y) t in
    let (a, us) = cons_inj vs in
    let (b, us) = cons_inj us in
    let (z, us) = cons_inj us in
    let (l, us) = cons_inj us in
    let (o, us) = cons_inj us in
    let (u, us) = cons_inj us in
    let (i, us) = cons_inj us in
    let same : same_udp x y ≡ true =
      rw
        (
          eq_ℤ_path p,
          same_bytes_path n,
          eq_ℤ_path (signed_inj _ _ a),
          same_bool_path (bit_inj _ _ b),
          same_bool_path (bit_inj _ _ z),
          same_bool_path (bit_inj _ _ l),
          same_bool_path (bit_inj _ _ o),
          same_number (decimal_inj _ _ u),
          ap (same_ip x.multicast_interface_address) (sym (dotted_inj _ _ i))
              ∙ same_ip_refl x.multicast_interface_address,
        )
        refl in
    cc (differ, same)
  where
    no_quote :
        (x : UdpServiceConfiguration) → Free quotation_mark (labelled udp_labels (udp_values x))
    no_quote x =
        labelled-Free quotation_mark udp_labels (udp_values x)
          (refl, (refl, (refl, (refl, (refl, (refl, (refl, tt)))))))
          (udp_values-Free quotation_mark quote x)

-- The same for TCPClientServiceConfiguration.
pub tcp_configuration_to_string_ne :
    (x y : TcpServiceConfiguration)
    → same_tcp x y ≡ false
    → tcp_configuration_to_string x ≢ tcp_configuration_to_string y
unfolding tcp_configuration_to_string same_tcp
tcp_configuration_to_string_ne x y differ e =
    let (p, n, t) =
      quoted_inj x.port y.port x.device_name y.device_name _ _ (no_quote x) (no_quote y) e in
    let vs =
      labelled_inj (codes ", socketPriority=" ∷ []) (signed x.socket_priority ∷ [])
        (signed y.socket_priority ∷ []) (refl, tt) refl refl
        (signed-Free b',' comma x.socket_priority, tt)
        (signed-Free b',' comma y.socket_priority, tt) t in
    let same : same_tcp x y ≡ true =
      rw (eq_ℤ_path p, same_bytes_path n, eq_ℤ_path (signed_inj _ _ (cons_inj vs).0)) refl in
    cc (differ, same)
  where
    no_quote :
        (x : TcpServiceConfiguration)
        → Free quotation_mark
            (labelled (codes ", socketPriority=" ∷ []) (signed x.socket_priority ∷ []))
    no_quote x =
        labelled-Free quotation_mark (codes ", socketPriority=" ∷ [])
          (signed x.socket_priority ∷ []) (refl, tt)
          (signed-Free quotation_mark quote x.socket_priority, tt)
