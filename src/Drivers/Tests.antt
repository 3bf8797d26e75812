-- ===== src/Drivers/Tests.antt =====
-- Runs of the drivers, and the theorems about them at concrete inputs.
use generic_target.Base.{take, ℕ, ◌≤◌, ◌≡◌, refl, true, false, List, [], ◌∷◌, map, arith}
use generic_target.Base.Int.{ℤ, pos}
use generic_target.Net.Addresses.{Address, same_ip, Ip}
use generic_target.Net.Sockets.{
  Kernel, Call, Reply, socket_datagram, receive_from, open_socket, system_call,
}
use generic_target.Udp.{
  create, open_service, set_up, attempt_to_bind, bind_both, bind_first, bind_second,
  same_configuration,
}
use generic_target.Udp.Manager.{new_manager}
use generic_target.Drivers.Sockets.{UdpParameters, device_characters}
use generic_target.Drivers.Sockets.Blocks.{udp_service_of}
use generic_target.Drivers.Arguments.{ArgumentOutputs, application_arguments_step}
use generic_target.Drivers.Arguments.ReadBack.{read_arguments}
use generic_target.Drivers.Arguments.Step.{application_arguments_step-read}
use generic_target.Drivers.Recording.{RecorderParameters, data_recorder_initialize}
use generic_target.Recorder.Manager.{
  AddAnswers, add_data_recorder_scalar_doubles, add_recorder, is_registered, start_recorder,
}

-- "run" and "--fast", of which three characters fit.
abbrev arguments : List (List ℕ)
arguments = (b'r' ∷ b'u' ∷ b'n' ∷ []) ∷ (b'-' ∷ b'-' ∷ b'f' ∷ b'a' ∷ b's' ∷ b't' ∷ []) ∷ []

abbrev outputs : ArgumentOutputs
outputs = record { arg_buffer = λ _. 7; num_chars = λ _. 7; num_arguments = 7 }

application_arguments_step-read_example :
    (read_arguments 3 0
        (application_arguments_step 3 2 arguments outputs).num_arguments
        (application_arguments_step 3 2 arguments outputs)
      ≡ map (take 3) (take 2 arguments))
    × ((j : ℕ) → 6 ≤ j → (application_arguments_step 3 2 arguments outputs).arg_buffer j ≡ 7)
application_arguments_step-read_example =
    application_arguments_step-read 3 2 arguments outputs (omega arith)

fast_is_cut :
    map (take 3) (take 2 arguments) ≡ (b'r' ∷ b'u' ∷ b'n' ∷ []) ∷ (b'-' ∷ b'-' ∷ b'f' ∷ []) ∷ []
fast_is_cut = refl

-- A system that opens descriptor 3, receives 5 bytes, and grants every other call.
abbrev reply_to : Call → Reply
reply_to socket_datagram = record { result = pos 3; error = 0 }
reply_to (receive_from fd size) = record { result = pos 5; error = 0 }
reply_to _ = record { result = pos 0; error = 0 }

abbrev granting : Kernel
granting [] = record { result = pos 0; error = 0 }
granting (c ∷ cs) = reply_to c

abbrev kernels : ℤ → Kernel
kernels id = granting

abbrev parameters : UdpParameters
parameters = record {
  port = pos 5000;
  device_name = b'e' ∷ b't' ∷ b'h' ∷ b'0' ∷ 0 ∷ [];
  socket_priority = pos 3;
  allow_broadcast = 1;
  allow_zero_length_message = 0;
  multicast_all = 1;
  multicast_loop = 1;
  multicast_ttl = 1;
  multicast_interface_address = record { b0 = 0; b1 = 0; b2 = 0; b3 = 0 };
}

abbrev host : Address
host = record { ip = record { b0 = 10; b1 = 0; b2 = 0; b3 = 1 }; port = 6000 }

abbrev plain_parameters : UdpParameters
plain_parameters = record parameters { device_name = b'e' ∷ b't' ∷ b'h' ∷ b'0' ∷ [] }

abbrev group : Ip
group = record { b0 = 239; b1 = 0; b2 = 0; b3 = 1 }

-- 239.0.0.1, and two bytes behind it.
abbrev group_bytes : List ℕ
group_bytes = 239 ∷ 0 ∷ 0 ∷ 1 ∷ 10 ∷ 0 ∷ []

service_is_bound : (udp_service_of kernels parameters new_manager).0.is_bound ≡ true
unfolding create set_up open_service open_socket system_call same_configuration same_ip
    attempt_to_bind bind_both bind_first bind_second device_characters
service_is_bound = refl

abbrev scalar_doubles : RecorderParameters
scalar_doubles = record {
  type_of_recorder = 0;
  id_characters = b'a' ∷ b'/' ∷ b'b' ∷ [];
  num_samples_per_file = 100;
  num_bytes_per_sample = 0;
  num_signals = 1;
  signal_names = b'x' ∷ [];
  dimensions = [];
  data_types = [];
}

abbrev granted : AddAnswers
granted = record { make_directory = true; start = true; write_index = true }

is_initialized : (data_recorder_initialize granted scalar_doubles []).1 ≡ false
unfolding data_recorder_initialize add_data_recorder_scalar_doubles add_recorder is_registered
    start_recorder
is_initialized = refl
