-- ===== src/Net/SocketOps/Addresses.antt =====
-- The text of addresses and ports, and what it is read as.
use dxian.Prelude.{
  ℕ, ◌+◌, ◌-◌, ◌≤◌, ◌<◌, ◌≡◌, refl, true, Option, some, List, [], ◌∷◌, ◌++◌, arith, ltb, leb,
  length, length-append, take-all, All,
}
use dxian.Base.LogStream.Digits.{horner}
use dxian.Base.LogStream.Convert.{decimal_digit}
use dxian.Net.SocketOps.{
  Family, unspec, inet, inet6, SockAddr, host_to_network16, network_to_host16, to_ip, append_text,
  to_ip_port, from_ip_port,
}

-- An address of 4 or of 16 bytes.
abbrev pub IsAddress : Family → List ℕ → Type 0
IsAddress unspec bytes = 0 < 0
IsAddress inet bytes = (length bytes ≡ 4) × All (λ b. b < 256) bytes
IsAddress inet6 bytes = (length bytes ≡ 16) × All (λ b. b < 256) bytes

-- INET_ADDRSTRLEN and INET6_ADDRSTRLEN, which count the zero at the end.
abbrev pub longest : Family → ℕ
longest unspec = 0
longest inet = 16
longest inet6 = 46

-- What the text of `to_ip_port` is.
abbrev pub joined : Family → List ℕ → List ℕ → List ℕ
joined unspec ip digits = []
joined inet ip digits = ip ++ 58 ∷ digits
joined inet6 ip digits = (91 ∷ ip) ++ 93 ∷ 58 ∷ digits

abbrev pub number : List ℕ → ℕ
number = horner decimal_digit 10 0

-- inet_ntop(3), inet_pton(3) and `%u`, by their documentation.
pub record IsText (inet_ntop : Family → List ℕ → List ℕ)
    (inet_pton : Family → List ℕ → Option (List ℕ)) (print_unsigned : ℕ → List ℕ) : Type 0 where
  pub reads_back : (f : Family) (a : List ℕ) → IsAddress f a → inet_pton f (inet_ntop f a) ≡ some a
  pub short : (f : Family) (a : List ℕ) → IsAddress f a → length (inet_ntop f a) < longest f
  pub prints :
      (n : ℕ) → n < 65536 → (number (print_unsigned n) ≡ n) × (length (print_unsigned n) ≤ 5)

swapped_twice : (p : ℕ) → p < 65536 → host_to_network16 (network_to_host16 p) ≡ p
unfolding host_to_network16 network_to_host16
swapped_twice p h = omega arith

swapped_bound : (p : ℕ) → p < 65536 → network_to_host16 p < 65536
unfolding network_to_host16
swapped_bound p h = omega arith

module _ (inet_ntop : Family → List ℕ → List ℕ) (inet_pton : Family → List ℕ → Option (List ℕ))
    (print_unsigned : ℕ → List ℕ) (text : IsText inet_ntop inet_pton print_unsigned) where
  append-whole :
      (size : ℕ) (xs ys : List ℕ)
      → length xs + length ys < size
      → append_text inet_ntop inet_pton print_unsigned size xs ys ≡ some (xs ++ ys)
  unfolding append_text
  append-whole size xs ys h =
      let room : ltb (length xs) size ≡ true = ground (arith, h) in
      rw (room, take-all (size - length xs - 1) ys (omega (arith, h))) refl

  recovered :
      (f : Family) (port : ℕ) (bytes : List ℕ) (old : SockAddr)
      → IsAddress f bytes
      → port < 65536
      → from_ip_port inet_ntop inet_pton print_unsigned f
          (inet_ntop f bytes)
          (number (print_unsigned (network_to_host16 port)))
          old
        ≡ record old { family = f; port = port; addr = bytes }
  unfolding from_ip_port
  recovered f port bytes old valid small =
      rw
        (
          text.reads_back f bytes valid,
          (text.prints (network_to_host16 port) (swapped_bound port small)).0,
          swapped_twice port small,
        )
        refl

  abbrev digits_of : ℕ → List ℕ
  digits_of port = print_unsigned (network_to_host16 port)

  few_digits : (port : ℕ) → port < 65536 → length (digits_of port) ≤ 5
  few_digits port small = (text.prints (network_to_host16 port) (swapped_bound port small)).1

  -- The text, and its length with the zero at the end.
  printed :
      (f : Family) (port : ℕ) (bytes : List ℕ) (flowinfo scope_id size : ℕ)
      → 64 ≤ size
      → IsAddress f bytes
      → port < 65536
      → (to_ip_port inet_ntop inet_pton print_unsigned size (record {
        family = f;
        port = port;
        addr = bytes;
        flowinfo = flowinfo;
        scope_id = scope_id;
      })
          ≡ some (joined f (inet_ntop f bytes) (digits_of port)))
        × (length (joined f (inet_ntop f bytes) (digits_of port)) < size)
  unfolding to_ip_port to_ip
  printed unspec port bytes flowinfo scope_id size room valid small = absurd (omega (arith, valid))
  printed inet port bytes flowinfo scope_id size room valid small =
      let enough : leb 16 size ≡ true = ground (arith, room) in
      let ip = text.short inet bytes valid in
      let digits = few_digits port small in
      (
        rw enough (
            append-whole size (inet_ntop inet bytes) (58 ∷ digits_of port)
              (omega (arith, room, ip, digits))),
        omega (arith, length-append (inet_ntop inet bytes) (58 ∷ digits_of port), ip, digits, room),
      )
  printed inet6 port bytes flowinfo scope_id size room valid small =
      let enough : leb 46 (size - 1) ≡ true = ground (arith, room) in
      let ip = text.short inet6 bytes valid in
      let digits = few_digits port small in
      (
        rw enough (
            append-whole size (91 ∷ inet_ntop inet6 bytes) (93 ∷ 58 ∷ digits_of port)
              (omega (arith, room, ip, digits))),
        omega (
          arith,
          length-append (inet_ntop inet6 bytes) (93 ∷ 58 ∷ digits_of port),
          ip,
          digits,
          room,
        ),
      )

  -- In a buffer of 64 bytes or more, the text of an IPv4 or IPv6 address and its port fits whole, with no failed assertion, and
  -- what it gives for the address and for the port makes a structure with the same family, address and port again, over any old one,
  -- whose flow information and scope stay.
  pub to_ip_port-reads :
      (size : ℕ) (a : SockAddr)
      → 64 ≤ size
      → IsAddress a.family a.addr
      → a.port < 65536
      → (ip : List ℕ) × (digits : List ℕ) × (to_ip_port inet_ntop inet_pton print_unsigned size a
          ≡ some (joined a.family ip digits))
        × (length (joined a.family ip digits) < size)
        × ((old : SockAddr)
            → from_ip_port inet_ntop inet_pton print_unsigned a.family ip (number digits) old
              ≡ record old { family = a.family; port = a.port; addr = a.addr })
  to_ip_port-reads size a room valid small =
      let (done, fits) =
        printed a.family a.port a.addr a.flowinfo a.scope_id size room valid small in
      (
        inet_ntop a.family a.addr,
        digits_of a.port,
        done,
        fits,
        λ old. recovered a.family a.port a.addr old valid small,
      )
