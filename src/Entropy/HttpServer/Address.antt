-- ===== src/Entropy/HttpServer/Address.antt =====
-- Which addresses the server binds to.
use entropy_tdc_gateway.Common.{
  ℕ, true, false, some, List, ◌≡◌, ◌⊎◌, inl, inr, Bool-cases, Option-cases, is_empty, arith,
}
use entropy_tdc_gateway.Common.Text.{trim_space, same_text, to_lower}
use entropy_tdc_gateway.Entropy.HttpServer.{
  Net, bound, check_ip, enforce_loopback_addr, localhost, or_default_address,
}

module _ (net : Net) where
  -- What may be bound without ALLOW_PUBLIC_HTTP: localhost, or a loopback IP in its canonical form,
  -- with the port of the address.
  abbrev pub IsLocal : List ℕ → List ℕ → List ℕ → Type 0
  IsLocal host port result =
      ((same_text (to_lower host) localhost ≡ true) × (result ≡ net.join_host_port localhost port))
      ⊎ ((ip : net.Ip) × (net.parse_ip host ≡ some ip)
          × (net.is_loopback ip ≡ true)
          × (result ≡ net.join_host_port (net.ip_string ip) port))

  check_ip-private :
      (address host port result : List ℕ)
      → check_ip net address host port false ≡ bound result
      → (ip : net.Ip) × (net.parse_ip host ≡ some ip)
        × (net.is_loopback ip ≡ true)
        × (result ≡ net.join_host_port (net.ip_string ip) port)
  unfolding check_ip
  check_ip-private address host port result h = elim (Option-cases (net.parse_ip host)) [
    | inl e ↦ absurd (ground (arith, rw (check_ip, e) at h))
    | inr (ip, e) ↦ elim (Bool-cases (net.is_loopback ip)) [
      | inl l ↦ (ip, e, l, ground (arith, rw (check_ip, e, l) at h))
      | inr l ↦ absurd (ground (arith, rw (check_ip, e, l) at h))
    ]
  ]

  -- Unless public addresses are allowed, an address that is accepted (the default one for an empty
  -- text) splits into a host and a port such that the result is localhost or a loopback IP with
  -- that port.
  pub enforce_loopback_addr-IsLocal :
      (raw result : List ℕ)
      → enforce_loopback_addr net raw false ≡ bound result
      → (host : List ℕ) × (port : List ℕ) × (net.split_host_port
            (or_default_address (trim_space raw))
          ≡ some (host, port))
        × IsLocal host port result
  unfolding enforce_loopback_addr
  enforce_loopback_addr-IsLocal raw result h =
      elim (Option-cases (net.split_host_port (or_default_address (trim_space raw)))) [
        | inl e ↦ absurd (ground (arith, rw (enforce_loopback_addr, e) at h))
        | inr ((host, port), e) ↦ (
          host,
          port,
          e,
          elim (Bool-cases (is_empty host)) [
            | inl p ↦ absurd (ground (arith, rw (enforce_loopback_addr, e, p) at h))
            | inr p ↦ elim (Bool-cases (same_text (to_lower host) localhost)) [
              | inl l ↦ inl (l, ground (arith, rw (enforce_loopback_addr, e, p, l) at h))
              | inr l ↦
                  inr
                    (check_ip-private _ host port result (rw (enforce_loopback_addr, e, p, l) at h))
            ]
          ],
        )
      ]
