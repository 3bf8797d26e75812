-- ===== src/Services/Text.antt =====
-- library/drivers/GT_DriverImplementationDetails.cpp: `UDPServiceConfiguration::ToString` and
-- `TCPClientServiceConfiguration::ToString`.
pub mod Labels
pub mod Distinct
pub mod Tests
use generic_target.Base.{if◌then◌else◌, ℕ, ◌+◌, Bool, List, [], ◌∷◌, ◌++◌}
use generic_target.Base.Int.{ℤ, pos, negsuc}
use generic_target.Base.Bytes.{codes}
use generic_target.Base.Decimal.{decimal}
use generic_target.Net.Text.{dotted}
use generic_target.Udp.{UdpServiceConfiguration}
use generic_target.Tcp.{TcpServiceConfiguration}

-- `operator<<` of an int32_t.
unfoldable pub signed : ℤ → List ℕ
signed (pos n) = decimal n
signed (negsuc n) = b'-' ∷ decimal (n + 1)

abbrev pub quotation_mark : ℕ
quotation_mark = 34

-- "1" or "0"
unfoldable pub bit : Bool → List ℕ
bit b = (if b then b'1' else b'0') ∷ []

-- Values behind their labels.
unfoldable pub labelled : List (List ℕ) → List (List ℕ) → List ℕ
labelled [] values = []
labelled (l ∷ labels) [] = []
labelled (l ∷ labels) (v ∷ values) = l ++ (v ++ labelled labels values)

-- The part that both texts begin with, up to the quote behind the name of the device, and the rest.
unfoldable pub quoted : ℤ → List ℕ → List ℕ → List ℕ
quoted port device_name rest =
    (codes "port=" ++ (signed port ++ (codes ", deviceName=" ++ (quotation_mark ∷ device_name))))
    ++ (quotation_mark ∷ rest)

abbrev pub udp_labels : List (List ℕ)
udp_labels =
    codes ", socketPriority="
    ∷ codes ", allowBroadcast="
    ∷ codes ", allowZeroLengthMessage="
    ∷ codes ", multicastAll="
    ∷ codes ", multicastLoop="
    ∷ codes ", multicastTTL="
    ∷ codes ", multicastInterfaceAddress="
    ∷ []

abbrev pub udp_values : UdpServiceConfiguration → List (List ℕ)
udp_values c =
    signed c.socket_priority
    ∷ bit c.allow_broadcast
    ∷ bit c.allow_zero_length_message
    ∷ bit c.multicast_all
    ∷ bit c.multicast_loop
    ∷ decimal c.multicast_ttl
    ∷ dotted c.multicast_interface_address
    ∷ []

unfoldable pub udp_configuration_to_string : UdpServiceConfiguration → List ℕ
udp_configuration_to_string c = quoted c.port c.device_name (labelled udp_labels (udp_values c))

unfoldable pub tcp_configuration_to_string : TcpServiceConfiguration → List ℕ
tcp_configuration_to_string c =
    quoted c.port c.device_name
      (labelled (codes ", socketPriority=" ∷ []) (signed c.socket_priority ∷ []))
