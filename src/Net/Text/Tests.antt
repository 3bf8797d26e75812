-- ===== src/Net/Text/Tests.antt =====
-- Texts of addresses, and the theorems about them at concrete inputs.
use generic_target.Base.{length, ℕ, ◌≡◌, refl, Option, none, some, List, [], ◌∷◌, arith}
use generic_target.Net.Addresses.{Ip}
use generic_target.Base.Decimal.{decimal, digits}
use generic_target.Net.Text.{bind_address, convert_to_mreq, address_to_string, dotted}
use generic_target.Net.Text.Read.{read_ip, Spells, read_ip-Spells, bound_addresses}

abbrev group : Ip
group = record { b0 = 239; b1 = 1; b2 = 0; b3 = 25 }

abbrev host : Ip
host = record { b0 = 10; b1 = 0; b2 = 0; b3 = 255 }

-- "10.0.0.255:80"
host_text :
    address_to_string (record { ip = host; port = 80 })
    ≡ b'1' ∷ b'0' ∷ b'.' ∷ b'0' ∷ b'.' ∷ b'0' ∷ b'.' ∷ b'2' ∷ b'5' ∷ b'5' ∷ b':' ∷ b'8' ∷ b'0' ∷ []
unfolding address_to_string dotted decimal digits
host_text = refl

-- Four decimal numbers with dots between them, and nothing else.
inet_addr : List ℕ → Option Ip
inet_addr text = elim (read_ip text) [
  | none ↦ none
  | some (x, []) ↦ some x
  | some (x, c ∷ cs) ↦ none
]

inet_addr-Spells : (text : List ℕ) (x : Ip) → Spells text x → inet_addr text ≡ some x
unfolding inet_addr
inet_addr-Spells text x h = rw (read_ip-Spells text x h, inet_addr) refl

bound_addresses_example :
    (bind_address inet_addr host ≡ some host)
    × ((convert_to_mreq inet_addr length host (b'e' ∷ []) group).multiaddr ≡ some host)
    × ((convert_to_mreq inet_addr length host (b'e' ∷ []) group).address ≡ some group)
bound_addresses_example =
    bound_addresses inet_addr inet_addr-Spells host group length (b'e' ∷ []) (omega arith)
      (omega arith)
