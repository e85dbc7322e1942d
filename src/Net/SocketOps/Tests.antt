-- ===== src/Net/SocketOps/Tests.antt =====
-- Addresses, and errors of accept.
use dxian.Prelude.{
  ℕ, ◌+◌, ◌/◌, ◌%◌, ◌<◌, ◌≡◌, ◌⊎◌, refl, true, false, Option, none, some, List, [], ◌∷◌, arith,
  length,
}
use dxian.Prelude.Int.{pos, negsuc, ltb_ℤ}
use dxian.Net.SocketOps.{
  Family, unspec, inet, inet6, SockAddr, emfile, enfile, ebadf, returns, dies, accept, to_ip_port,
  from_ip_port, is_self_connect, get_addr,
}
use dxian.Net.SocketOps.Accept.{Transient, accept-handles}
use dxian.Net.SocketOps.Addresses.{IsAddress, IsText, joined, number, longest, to_ip_port-reads}

-- Each byte as one character, and five digits for a number.
abbrev ntop : Family → List ℕ → List ℕ
ntop f bytes = bytes

abbrev pton : Family → List ℕ → Option (List ℕ)
pton f text = some text

abbrev print : ℕ → List ℕ
print n =
    (n / 10000 + 48)
    ∷ (n / 1000 % 10 + 48)
    ∷ (n / 100 % 10 + 48)
    ∷ (n / 10 % 10 + 48)
    ∷ (n % 10 + 48)
    ∷ []

short_bytes : (f : Family) (a : List ℕ) → IsAddress f a → length a < longest f
short_bytes unspec a h = absurd (omega (arith, h))
short_bytes inet a h = omega (arith, h.0)
short_bytes inet6 a h = omega (arith, h.0)

ntop-IsText : IsText ntop pton print
ntop-IsText = record {
  reads_back = λ f a h. refl;
  short = short_bytes;
  prints = λ n h. (omega arith, omega arith);
}

-- The port 8000 is 0x1f40.
abbrev localhost : SockAddr
localhost = record {
  family = inet;
  port = 16415;
  addr = 127 ∷ 0 ∷ 0 ∷ 1 ∷ [];
  flowinfo = 0;
  scope_id = 0;
}

to_ip_port-reads_example :
    (ip : List ℕ) × (digits : List ℕ) × (to_ip_port ntop pton print 64 localhost
      ≡ some (joined inet ip digits))
    × (length (joined inet ip digits) < 64)
    × ((old : SockAddr)
        → from_ip_port ntop pton print inet ip (number digits) old
          ≡ record old { family = inet; port = 16415; addr = 127 ∷ 0 ∷ 0 ∷ 1 ∷ [] })
to_ip_port-reads_example =
    to_ip_port-reads ntop pton print ntop-IsText 64 localhost (omega arith)
      (refl, (omega arith, (omega arith, (omega arith, (omega arith, tt))))) (omega arith)

-- Logging sets `errno` to EBADF, say.
accept-handles_example :
    ((accept (λ e. ebadf) (negsuc 0) emfile ≡ returns (negsuc 0) emfile)
      × ((ltb_ℤ (negsuc 0) (pos 0) ≡ false) ⊎ Transient emfile))
    ⊎ ((accept (λ e. ebadf) (negsuc 0) emfile ≡ dies)
        × (ltb_ℤ (negsuc 0) (pos 0) ≡ true)
        × (¬ Transient emfile))
accept-handles_example = accept-handles (λ e. ebadf) (negsuc 0) emfile

too_many_files : accept (λ e. ebadf) (negsuc 0) enfile ≡ dies
unfolding accept
too_many_files = refl

-- A socket without a peer is not connected to itself, and one whose ends are the same is.
unconnected : is_self_connect (some localhost) none ≡ false
unfolding is_self_connect get_addr
unconnected = refl

connected : is_self_connect (some localhost) (some localhost) ≡ true
unfolding is_self_connect get_addr
connected = refl
