-- ===== src/Net/SocketOps/Accept.antt =====
-- `accept` and the errors of accept(2).
use dxian.Prelude.{◌≡◌, ◌⊎◌, inl, inr, refl, true, false, arith, Bool-cases}
use dxian.Prelude.Int.{ℤ, pos, ltb_ℤ}
use dxian.Net.SocketOps.{
  Errno, eagain, econnaborted, eintr, eproto, eperm, emfile, returns, dies, switch, accept,
}

-- Errors of one connection, after which the listening socket can be used.
abbrev pub Transient : Errno → Type 0
Transient e =
    (e ≡ eagain)
    ⊎ ((e ≡ econnaborted) ⊎ ((e ≡ eintr) ⊎ ((e ≡ eproto) ⊎ ((e ≡ eperm) ⊎ (e ≡ emfile)))))

switch-splits :
    (connfd : ℤ) (errno logged : Errno)
    → ((switch connfd errno logged ≡ returns connfd errno) × Transient errno)
      ⊎ ((switch connfd errno logged ≡ dies) × (¬ Transient errno))
switch-splits connfd errno logged = ground arith

-- Whatever logging does to `errno`, `accept` returns what accept4(2) returned, with the `errno` that it left, if that is a
-- descriptor or the error is one of those that are expected; in every other case the program ends.
pub accept-handles :
    (log_errno : Errno → Errno) (connfd : ℤ) (errno : Errno)
    → ((accept log_errno connfd errno ≡ returns connfd errno)
        × ((ltb_ℤ connfd (pos 0) ≡ false) ⊎ Transient errno))
      ⊎ ((accept log_errno connfd errno ≡ dies)
          × (ltb_ℤ connfd (pos 0) ≡ true)
          × (¬ Transient errno))
unfolding accept
accept-handles log_errno connfd errno = elim (Bool-cases (ltb_ℤ connfd (pos 0))) [
  | inr ok ↦ inl (rw ok refl, inl ok)
  | inl failed ↦ elim (switch-splits connfd errno (log_errno errno)) [
    | inl (same, transient) ↦ inl (rw failed same, inr transient)
    | inr (end, fatal) ↦ inr (rw failed end, failed, fatal)
  ]
]
