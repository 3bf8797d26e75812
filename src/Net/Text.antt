-- ===== src/Net/Text.antt =====
-- library/drivers/GT_DriverImplementationDetails.cpp: the text of an address, as `Address::ToString`
-- prints it and as `Bind` and `ConvertToMREQ` pass it to `inet_addr`.
pub mod Read
pub mod Tests
use generic_target.Base.{
  ◌==◌, if◌then◌else◌, length, take, ℕ, ◌-◌, not, ◌||◌, Option, some, List, ◌∷◌, ◌++◌,
}
use generic_target.Base.Decimal.{decimal}
use generic_target.Net.Addresses.{Ip, Address}

-- "%u.%u.%u.%u"
unfoldable pub dotted : Ip → List ℕ
dotted x =
    decimal x.b0 ++ (b'.' ∷ (decimal x.b1 ++ (b'.' ∷ (decimal x.b2 ++ (b'.' ∷ decimal x.b3)))))

-- `Address::ToString`
unfoldable pub address_to_string : Address → List ℕ
address_to_string a = dotted a.ip ++ (b':' ∷ decimal a.port)

-- `snprintf` into an array of `n` characters, the last of which is the terminating zero.
abbrev pub snprintf : ℕ → List ℕ → List ℕ
snprintf n text = take (n - 1) text

abbrev pub any_ip : Ip
any_ip = record { b0 = 0; b1 = 0; b2 = 0; b3 = 0 }

-- `struct ip_mreqn`
pub record MulticastRequest : Type 0 where
  pub multiaddr : Option Ip
  pub address : Option Ip
  pub ifindex : ℕ

-- `inet_addr` reads a text, and `if_nametoindex` gives the index of a network interface.
module _ (inet_addr : List ℕ → Option Ip) where
  -- The address in `addr_this` of `SocketBinding::Bind`; INADDR_ANY is 0.0.0.0.
  unfoldable pub bind_address : Ip → Option Ip
  bind_address x =
      let text : List ℕ = snprintf 16 (dotted x) in
      if not (x.b0 == 0) || (not (x.b1 == 0) || (not (x.b2 == 0) || not (x.b3 == 0)))
      then inet_addr text
      else some any_ip

  unfoldable pub convert_to_mreq : (List ℕ → ℕ) → Ip → List ℕ → Ip → MulticastRequest
  convert_to_mreq if_nametoindex group interface_name interface_address = record {
    multiaddr = inet_addr (snprintf 16 (dotted group));
    address = inet_addr (snprintf 16 (dotted interface_address));
    ifindex = if length interface_name == 0 then 0 else if_nametoindex interface_name;
  }
