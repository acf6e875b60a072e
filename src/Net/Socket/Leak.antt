-- ===== src/Net/Socket/Leak.antt =====
-- The UDP sockets behind closed descriptors of src/network/socket.c: udp_close does not lower the
-- count of sockets that udp_create_socket tests.
use cgos.Base.{
  ℕ, zero, suc, ◌+◌, ◌<◌, ◌≡◌, refl, sym, subst, Bool, true, false, List, ◌∷◌, leb, arith, Option,
  none, some,
}
use cgos.Net.Route.{Interface}
use cgos.Net.Tcp.{Tcp}
use cgos.Net.Udp.{Udp, udp_create_socket, udp_close}
use cgos.Net.Socket.{
  Descriptor, Sockets, sock_dgram, af_inet, zeroed, first_unused, allocate_socket_fd,
  free_socket_fd, get_socket, create_at, socket_create,
}
use cgos.Net.Socket.Calls.{socket_close}

-- A state whose first descriptor is free.
abbrev pub idle : List Bool → Descriptor → List Descriptor → Udp → Tcp → Sockets
idle rest d ds u t = record { sockets = d ∷ ds; socket_used = false ∷ rest; udp = u; tcp = t }

-- A datagram socket is created and closed.
abbrev closes : List Interface → Option ℕ × Sockets → Sockets
closes interfaces (none, s) = s
closes interfaces (some sockfd, s) = (socket_close interfaces sockfd s).1

abbrev pub cycle : List Interface → ℕ → Sockets → Sockets
cycle interfaces protocol s = closes interfaces (socket_create af_inet sock_dgram protocol s)

abbrev pub cycles : List Interface → ℕ → ℕ → Sockets → Sockets
cycles interfaces protocol zero s = s
cycles interfaces protocol (suc n) s = cycles interfaces protocol n (cycle interfaces protocol s)

module _ (interfaces : List Interface) (protocol : ℕ) (rest : List Bool) (ds : List Descriptor)
    (t : Tcp) where
  one_cycle :
      (d : Descriptor) (u : Udp)
      → u.socket_count < 64
      → (u' : Udp) × (u'.socket_count ≡ u.socket_count + 1)
        × (cycle interfaces protocol (idle rest d ds u t) ≡ idle rest zeroed ds u' t)
  unfolding socket_create socket_close allocate_socket_fd first_unused create_at udp_create_socket
      get_socket free_socket_fd udp_close
  one_cycle d u small =
      let e : leb 64 u.socket_count ≡ false = ground arith in
      (udp_close (udp_create_socket u).1 u.socket_count, rw e refl, rw e refl)

  none_left :
      (d : Descriptor) (u : Udp)
      → u.socket_count ≡ 64
      → (socket_create af_inet sock_dgram protocol (idle rest d ds u t)).0 ≡ none
  unfolding socket_create allocate_socket_fd first_unused create_at udp_create_socket
  none_left d u full = let e : leb 64 u.socket_count ≡ true = ground arith in rw e refl

  -- Once as many datagram sockets have been created and closed as the count of UDP sockets leaves
  -- room for, the first descriptor is free again, but no datagram socket can be created.
  pub socket_create-fails_after_cycles :
      (n : ℕ) (d : Descriptor) (u : Udp)
      → u.socket_count + n ≡ 64
      → let s = cycles interfaces protocol n (idle rest d ds u t) in
        (s.socket_used ≡ false ∷ rest) × ((socket_create af_inet sock_dgram protocol s).0 ≡ none)
  socket_create-fails_after_cycles zero d u full = (refl, none_left d u (omega arith))
  socket_create-fails_after_cycles (suc n) d u full =
      let (u', more, step) = one_cycle d u (omega arith) in
      subst
        (λ s.
          ((cycles interfaces protocol n s).socket_used ≡ false ∷ rest)
          × ((socket_create af_inet sock_dgram protocol (cycles interfaces protocol n s)).0 ≡ none))
        (sym step) (socket_create-fails_after_cycles n zeroed u' (omega arith))
