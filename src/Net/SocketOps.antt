-- ===== src/Net/SocketOps.antt =====
-- server/src/muduo/net/SocketOps.cpp and include/Endian.h.
--
-- The results of system calls are arguments: a number that is negative for an error, and `errno`. Addresses in
-- memory are those of a little-endian host, so a port in network order has its bytes swapped. inet_ntop(3), inet_pton(3) and
-- the `%u` of snprintf(3) are parameters.
pub mod Accept
pub mod Addresses
mod Tests
use dxian.Prelude.{
  ℕ, ◌+◌, ◌-◌, ◌*◌, ◌/◌, ◌%◌, Bool, true, false, ◌&&◌, Option, none, some, List, [], ◌∷◌, ◌++◌,
  ◌==◌, ltb, leb, if◌then◌else◌, length, take,
}
use dxian.Prelude.Int.{ℤ, pos, ltb_ℤ}

pub data Errno : Type 0 where
  eagain econnaborted eintr eproto eperm emfile : Errno
  ebadf efault einval enfile enobufs enomem enotsock eopnotsupp : Errno
  other : ℕ → Errno

-- A call returns a value, with `errno` after it, or the log ends the program.
pub data Outcome {ℓ} (A : Type ℓ) : Type ℓ where
  returns : A → Errno → Outcome A
  dies : Outcome A

-- The `OrDie` functions, by what the system call returns.
unfoldable pub create_nonblocking_or_die : ℤ → Errno → Outcome ℤ
create_nonblocking_or_die sockfd errno = if ltb_ℤ sockfd (pos 0) then dies else returns sockfd errno

unfoldable pub bind_or_die : ℤ → Errno → Outcome (Unit {0})
bind_or_die ret errno = if ltb_ℤ ret (pos 0) then dies else returns tt errno

unfoldable pub listen_or_die : ℤ → Errno → Outcome (Unit {0})
listen_or_die ret errno = if ltb_ℤ ret (pos 0) then dies else returns tt errno

-- The `switch` of `accept`. `logged` is `errno` after the log message.
abbrev pub switch : ℤ → Errno → Errno → Outcome ℤ
switch connfd eagain logged = returns connfd eagain
switch connfd econnaborted logged = returns connfd econnaborted
switch connfd eintr logged = returns connfd eintr
switch connfd eproto logged = returns connfd eproto
switch connfd eperm logged = returns connfd eperm
switch connfd emfile logged = returns connfd emfile
switch connfd ebadf logged = dies
switch connfd efault logged = dies
switch connfd einval logged = dies
switch connfd enfile logged = dies
switch connfd enobufs logged = dies
switch connfd enomem logged = dies
switch connfd enotsock logged = dies
switch connfd eopnotsupp logged = dies
switch connfd (other n) logged = dies

-- `log_errno` is what a log message leaves in `errno`.
unfoldable pub accept : (Errno → Errno) → ℤ → Errno → Outcome ℤ
accept log_errno connfd errno =
    if ltb_ℤ connfd (pos 0) then switch connfd errno (log_errno errno) else returns connfd errno

-- `getSocketError`: what getsockopt(2) returns and writes.
unfoldable pub get_socket_error : ℤ → ℤ → ℤ → ℤ
get_socket_error ret optval errno = if ltb_ℤ ret (pos 0) then errno else optval

-- Endian.h, for 16 bits.
unfoldable pub host_to_network16 : ℕ → ℕ
host_to_network16 n = n % 256 * 256 + n / 256

unfoldable pub network_to_host16 : ℕ → ℕ
network_to_host16 n = n % 256 * 256 + n / 256

pub data Family : Type 0 where
  unspec inet inet6 : Family

-- A port in network order, the bytes of an address, and `sin6_flowinfo` and `sin6_scope_id` of the same union.
pub record SockAddr : Type 0 where
  pub family : Family
  pub port : ℕ
  pub addr : List ℕ
  pub flowinfo : ℕ
  pub scope_id : ℕ

-- The zeros of `memZero`, as an address of the family that they are read by.
abbrev pub zero_bytes : Family → List ℕ
zero_bytes unspec = []
zero_bytes inet = 0 ∷ 0 ∷ 0 ∷ 0 ∷ []
zero_bytes inet6 = 0 ∷ 0 ∷ 0 ∷ 0 ∷ 0 ∷ 0 ∷ 0 ∷ 0 ∷ 0 ∷ 0 ∷ 0 ∷ 0 ∷ 0 ∷ 0 ∷ 0 ∷ 0 ∷ []

-- `getLocalAddr` and `getPeerAddr`: what the system call wrote, or the zeros if it fails.
unfoldable pub get_addr : Family → Option SockAddr → SockAddr
get_addr f none = record {
  family = unspec;
  port = 0;
  addr = zero_bytes f;
  flowinfo = 0;
  scope_id = 0;
}
get_addr f (some a) = a

abbrev pub eq_bytes : List ℕ → List ℕ → Bool
eq_bytes [] [] = true
eq_bytes [] (y ∷ ys) = false
eq_bytes (x ∷ xs) [] = false
eq_bytes (x ∷ xs) (y ∷ ys) = (x == y) && eq_bytes xs ys

abbrev pub same_addr : Family → SockAddr → SockAddr → Bool
same_addr unspec l p = false
same_addr inet l p = (l.port == p.port) && eq_bytes l.addr p.addr
same_addr inet6 l p = (l.port == p.port) && eq_bytes l.addr p.addr

-- Both ends of a socket have one family, which the code reads from the local end.
unfoldable pub is_self_connect : Option SockAddr → Option SockAddr → Bool
is_self_connect local peer =
    let l = get_addr unspec local in let p = get_addr l.family peer in same_addr l.family l p

module _ (inet_ntop : Family → List ℕ → List ℕ) (inet_pton : Family → List ℕ → Option (List ℕ))
    (print_unsigned : ℕ → List ℕ) where
  -- INET_ADDRSTRLEN and INET6_ADDRSTRLEN. `none` is an assertion that fails, or a buffer that is read or written
  -- where it may not be. An address of another kind leaves the buffer as it is.
  unfoldable pub to_ip : ℕ → SockAddr → Option (List ℕ)
  to_ip size a = elim a.family [
    | unspec ↦ none
    | inet ↦ if leb 16 size then some (inet_ntop inet a.addr) else none
    | inet6 ↦ if leb 46 size then some (inet_ntop inet6 a.addr) else none
  ]

  -- `snprintf` at the end of the text in the buffer, which it cuts off.
  unfoldable pub append_text : ℕ → List ℕ → List ℕ → Option (List ℕ)
  append_text size text more =
      if ltb (length text) size then some (text ++ take (size - length text - 1) more) else none

  abbrev pub port_text : SockAddr → List ℕ
  port_text a = print_unsigned (network_to_host16 a.port)

  abbrev pub with_ip : ℕ → List ℕ → List ℕ → Option (List ℕ) → Option (List ℕ)
  with_ip size before more none = none
  with_ip size before more (some text) = append_text size (before ++ text) more

  unfoldable pub to_ip_port : ℕ → SockAddr → Option (List ℕ)
  to_ip_port size a = elim a.family [
    | unspec ↦ none
    | inet ↦ with_ip size [] (58 ∷ port_text a) (to_ip size a)
    | inet6 ↦ with_ip size (91 ∷ []) (93 ∷ 58 ∷ port_text a) (to_ip (size - 1) a)
  ]

  abbrev pub parsed : Option (List ℕ) → List ℕ → List ℕ
  parsed none old = old
  parsed (some bytes) old = bytes

  -- Both overloads, by the family; an address that cannot be read stays what it was, and so does
  -- the rest of the structure.
  unfoldable pub from_ip_port : Family → List ℕ → ℕ → SockAddr → SockAddr
  from_ip_port family ip port a = record a {
    family = family;
    port = host_to_network16 port;
    addr = parsed (inet_pton family ip) a.addr;
  }
