-- ===== src/Udp/Manager/Routing.antt =====
-- Which service a call of the manager reaches.
use generic_target.Base.{Bool-cases, ℕ, ◌≡◌, refl, inl, inr, true, false, not, ◌&&◌, List, arith}
use generic_target.Base.Int.{eq_ℤ, ℤ}
use generic_target.Net.Sockets.{Kernel}
use generic_target.Net.Addresses.{Address}
use generic_target.Udp.{UdpServiceConfiguration, create, new_service}
use generic_target.Services.{with_new}
use generic_target.Services.Routing.{OwnId, lookup, with_new-Grown}
use generic_target.Udp.Manager.{UdpServiceManager, add_service, manager_send_to}

module _ (kernel : ℤ → Kernel) where
  -- `AddService` never registers an id twice, and leaves every other service as it is.
  pub add_service-OwnId :
      (id : ℤ) (conf : UdpServiceConfiguration) (m : UdpServiceManager)
      → OwnId m.services
      → OwnId (add_service kernel id conf m).0.services
        × ((other : ℤ)
            → eq_ℤ other id ≡ false
            → lookup other (add_service kernel id conf m).0.services ≡ lookup other m.services)
  unfolding add_service
  add_service-OwnId id conf m d =
      let v = with_new-Grown (create (kernel id) conf) new_service id m.services d in
      elim (Bool-cases (
        not m.thread_started && (with_new (create (kernel id) conf) new_service id m.services).1)) [
          | inl b ↦ rw b v
          | inr b ↦ rw b v
        ]

  add_service-joinable :
      (id : ℤ) (conf : UdpServiceConfiguration) (m : UdpServiceManager)
      → m.thread_started ≡ false
      → m.joinable ≡ true
      → (add_service kernel id conf m).1 ≡ true
      → (add_service kernel id conf m).0.terminated ≡ true
  unfolding add_service
  add_service-joinable id conf m started j ok = simp (started, ok, j) (ground arith)

  -- A service that is added with success behind the first `SendTo` or `ReceiveFrom` is fatal: the
  -- thread that was started for the services before is still joinable, and the assignment of a new
  -- one ends the program.
  pub add_service-late :
      (id other : ℤ) (conf : UdpServiceConfiguration) (dest : Address) (bytes : List ℕ) (size : ℤ)
      (m : UdpServiceManager)
      → m.joinable ≡ true
      → let n : UdpServiceManager = (manager_send_to kernel other dest bytes size m).0 in
        (add_service kernel id conf n).1 ≡ true → (add_service kernel id conf n).0.terminated ≡ true
  unfolding manager_send_to
  add_service-late id other conf dest bytes size m j h =
      add_service-joinable id conf (manager_send_to kernel other dest bytes size m).0
        (elim (Bool-cases m.thread_started) [ inl b ↦ simp b refl | inr b ↦ simp b refl ])
        (elim (Bool-cases m.thread_started) [ inl b ↦ simp b j | inr b ↦ simp b j ]) h
