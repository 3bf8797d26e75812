-- ===== src/Services/Text/Tests.antt =====
-- Two configurations whose devices are named after each other's text.
use generic_target.Base.{length, ◌≡◌, refl, ◌≢◌}
use generic_target.Base.Int.{pos}
use generic_target.Base.Bytes.{codes}
use generic_target.Udp.{UdpServiceConfiguration, reset_configuration, same_configuration}
use generic_target.Services.Text.{udp_configuration_to_string, signed, bit, labelled, quoted}
use generic_target.Services.Text.Distinct.{udp_configuration_to_string_ne}
use generic_target.Base.Decimal.{decimal, digits}
use generic_target.Net.Text.{dotted}

abbrev eth0 : UdpServiceConfiguration
eth0 = record reset_configuration { port = pos 5000; device_name = codes "eth0" }

abbrev odd_device : UdpServiceConfiguration
odd_device = record reset_configuration {
  port = pos 5000;
  device_name = codes "eth0, socketPriority=0";
}

text_of_eth0 : length (udp_configuration_to_string eth0) ≡ 174
unfolding udp_configuration_to_string quoted labelled signed bit decimal digits dotted
text_of_eth0 = refl

udp_configuration_to_string_ne_example :
    udp_configuration_to_string eth0 ≢ udp_configuration_to_string odd_device
unfolding same_configuration
udp_configuration_to_string_ne_example = udp_configuration_to_string_ne eth0 odd_device refl
