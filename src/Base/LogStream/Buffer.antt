-- ===== src/Base/LogStream/Buffer.antt =====
-- No value that is put into the buffer leaves it, and a value is in it with its whole text or not at all.
use dxian.Prelude.{
  ℕ, ◌+◌, ◌-◌, ◌^◌, ◌≤◌, ◌<◌, ◌≡◌, ◌⊎◌, inl, inr, refl, arith, true, false, none, some, List, [],
  ◌∷◌, ◌++◌, ltb, if◌then◌else◌, length, length-append, Bool-cases, All,
}
use dxian.Prelude.Int.{ℤ, pos_part, neg_part, pos_sub}
use dxian.Base.LogStream.{
  FixedBuffer, Item, bool, integer, pointer, double, char, c_string, text, avail, append, write,
  has_room, format_integer, format_pointer, format_double, put, put_all,
}
use dxian.Base.LogStream.Digits.{horner}
use dxian.Base.LogStream.Convert.{read_decimal, hex_digit, convert-reads, convert_hex-reads}

-- Some room is left, as `debugString` needs, which writes a zero after the text.
abbrev pub HasRoom : ℕ → FixedBuffer → Type 0
HasRoom size b = length b.written < size

module _ (snprintf : ℕ → List ℕ) where
  -- The values of 64-bit types; a size is below 2 ^ 64 too.
  abbrev pub Fits : Item → Type 0
  Fits (integer z) = (pos_part z < 2 ^ 64) × (neg_part z < 2 ^ 64)
  Fits (pointer p) = p < 2 ^ 64
  Fits (bool v) = Unit {0}
  Fits (double v) = Unit {0}
  Fits (char c) = Unit {0}
  Fits (c_string s) = Unit {0}
  Fits (text s) = Unit {0}

  -- What the text of a value is.
  abbrev pub Shows : Item → List ℕ → Type 0
  Shows (bool v) cs = cs ≡ (if v then 49 else 48) ∷ []
  Shows (integer z) cs = (read_decimal cs ≡ z) × (length cs ≤ 21)
  Shows (pointer p) cs =
      (ds : List ℕ) × (cs ≡ 48 ∷ 120 ∷ ds) × (horner hex_digit 16 0 ds ≡ p) × (length ds ≤ 16)
  Shows (double v) cs = cs ≡ snprintf v
  Shows (char c) cs = cs ≡ c ∷ []
  Shows (c_string none) cs = cs ≡ 40 ∷ 110 ∷ 117 ∷ 108 ∷ 108 ∷ 41 ∷ []
  Shows (c_string (some s)) cs = cs ≡ s
  Shows (text s) cs = cs ≡ s

  -- Too little room is left: fewer than 48 characters for a number, none after the text otherwise.
  abbrev pub Full : ℕ → Item → List ℕ → FixedBuffer → Type 0
  Full size (integer z) cs b = size < length b.written + 48
  Full size (pointer p) cs b = size < length b.written + 48
  Full size (double v) cs b = size < length b.written + 48
  Full size (bool v) cs b = size ≤ length b.written + length cs
  Full size (char c) cs b = size ≤ length b.written + length cs
  Full size (c_string s) cs b = size ≤ length b.written + length cs
  Full size (text s) cs b = size ≤ length b.written + length cs

  -- The text follows what was written, or nothing changes because too little room is left.
  abbrev pub Puts : ℕ → Item → FixedBuffer → FixedBuffer → Type 0
  Puts size i b b' =
      (cs : List ℕ) × Shows i cs × ((b'.written ≡ b.written ++ cs) ⊎ ((b' ≡ b) × Full size i cs b))

  module _ (size : ℕ) (small : size < 2 ^ 64) where
    append-Puts :
        (cs : List ℕ) (b : FixedBuffer)
        → HasRoom size b
        → HasRoom size (append size cs b)
          × (((append size cs b).written ≡ b.written ++ cs)
              ⊎ ((append size cs b ≡ b) × (size ≤ length b.written + length cs)))
    unfolding append avail
    append-Puts cs b h =
        rw (pos_sub size (length b.written) (omega arith))
          (elim (Bool-cases (ltb (length cs) (size - length b.written))) [
            | inl e ↦ (ground (arith, e, length-append b.written cs), inl (ground (arith, e)))
            | inr e ↦ (ground (arith, e), inr (ground (arith, e)))
          ])

    write-done :
        (n : ℕ) (cs : List ℕ) (b : FixedBuffer)
        → length b.written + n ≤ size
        → length cs ≤ n
        → write size n cs b ≡ some (record { written = b.written ++ cs })
    unfolding write
    write-done n cs b h k = ground (arith, h, k)

    has_room-cases :
        (b : FixedBuffer)
        → HasRoom size b
        → ((has_room size b ≡ true) × (length b.written + 48 ≤ size))
          ⊎ ((has_room size b ≡ false) × (size < length b.written + 48))
    unfolding has_room avail
    has_room-cases b h = rw (pos_sub size (length b.written) (omega arith)) (ground arith)

    append_case :
        (i : Item) (cs : List ℕ) (b : FixedBuffer)
        → (size ≤ length b.written + length cs → Full size i cs b)
        → Shows i cs
        → HasRoom size b
        → (b' : FixedBuffer) × (some (append size cs b) ≡ some b')
          × HasRoom size b'
          × Puts size i b b'
    append_case i cs b full shows h =
        let (room, how) = append-Puts cs b h in
        (
          append size cs b,
          refl,
          room,
          (cs, shows, elim how [ inl e ↦ inl e | inr (e, k) ↦ inr (e, full k) ]),
        )

    number_case :
        (i : Item) (n : ℕ) (cs : List ℕ) (b : FixedBuffer)
        → (size < length b.written + 48 → Full size i cs b)
        → Shows i cs
        → HasRoom size b
        → length cs ≤ n
        → n ≤ 48
        → length cs < 48
        → (b' : FixedBuffer) × ((if has_room size b then write size n cs b else some b) ≡ some b')
          × HasRoom size b'
          × Puts size i b b'
    number_case i n cs b full shows h whole short short' = elim (has_room-cases b h) [
      | inl (e, k) ↦ (
        record { written = b.written ++ cs },
        rw e (write-done n cs b (omega (arith, k, short)) whole),
        omega (arith, k, short', length-append b.written cs),
        (cs, shows, inl refl),
      )
      | inr (e, k) ↦ (b, rw e refl, h, (cs, shows, inr (refl, full k)))
    ]

    integer_case :
        (z : ℤ) (b : FixedBuffer)
        → Fits (integer z)
        → HasRoom size b
        → (b' : FixedBuffer) × (format_integer size z b ≡ some b')
          × HasRoom size b'
          × Puts size (integer z) b b'
    unfolding format_integer
    integer_case z b (low, high) h =
        let (cs, e, reads, short) = convert-reads z low high in
        rw e (
          number_case (integer z) (length cs + 1) cs b (λ k. k) (reads, short) h (omega arith)
            (omega (arith, short)) (omega (arith, short)))

    pointer_case :
        (p : ℕ) (b : FixedBuffer)
        → p < 2 ^ 64
        → HasRoom size b
        → (b' : FixedBuffer) × (format_pointer size p b ≡ some b')
          × HasRoom size b'
          × Puts size (pointer p) b b'
    unfolding format_pointer
    pointer_case p b low h =
        let (cs, e, reads, short) = convert_hex-reads p low in
        rw e (
          number_case (pointer p) (2 + length cs + 1) (48 ∷ 120 ∷ cs) b (λ k. k)
            (cs, refl, reads, short) h (omega arith) (omega (arith, short)) (omega (arith, short)))

    -- printf(3): `%.12g` gives a sign, 12 digits, a point and an exponent of five characters at most.
    module _ (general : (v : ℕ) → length (snprintf v) ≤ 19) where
      double_case :
          (v : ℕ) (b : FixedBuffer)
          → HasRoom size b
          → (b' : FixedBuffer) × (format_double size snprintf v b ≡ some b')
            × HasRoom size b'
            × Puts size (double v) b b'
      unfolding format_double
      double_case v b h =
          number_case (double v) _ (snprintf v) b (λ k. k) refl h (ground (arith, general v))
            (ground (arith, general v)) (omega (arith, general v))

      -- Putting a value of 64 bits at most into a buffer with room left, by `operator<<`, never leaves it. The text of the value is added to it,
      -- whole, or it is left out when too little room is left: for a number less than 48 characters,
      -- for text no more than its length. There is room for a zero at the end before and after.
      pub put-Puts :
          (i : Item) (b : FixedBuffer)
          → Fits i
          → HasRoom size b
          → (b' : FixedBuffer) × (put size snprintf i b ≡ some b')
            × HasRoom size b'
            × Puts size i b b'
      unfolding put
      put-Puts (bool v) b f h = append_case (bool v) _ b (λ k. k) refl h
      put-Puts (integer z) b f h = integer_case z b f h
      put-Puts (pointer p) b f h = pointer_case p b f h
      put-Puts (double v) b f h = double_case v b h
      put-Puts (char c) b f h = append_case (char c) _ b (λ k. k) refl h
      put-Puts (c_string none) b f h = append_case (c_string none) _ b (λ k. k) refl h
      put-Puts (c_string (some s)) b f h = append_case (c_string (some s)) s b (λ k. k) refl h
      put-Puts (text s) b f h = append_case (text s) s b (λ k. k) refl h

      -- The buffers between the values of a line.
      abbrev pub Logs : List Item → FixedBuffer → FixedBuffer → Type 0
      Logs [] b b' = b ≡ b'
      Logs (i ∷ is) b b' = (c : FixedBuffer) × Puts size i b c × Logs is c b'

      -- A line of any number of values, of 64 bits at most, never leaves the buffer, and each value in turn is added whole or left
      -- out for lack of room.
      pub put_all-Logs :
          (is : List Item) (b : FixedBuffer)
          → All Fits is
          → HasRoom size b
          → (b' : FixedBuffer) × (put_all size snprintf is b ≡ some b')
            × HasRoom size b'
            × Logs is b b'
      unfolding put_all
      put_all-Logs [] b f h = (b, refl, h, refl)
      put_all-Logs (i ∷ is) b f h =
          let (c, e, room, puts) = put-Puts i b f.0 h in
          let (b', e', room', logs) = put_all-Logs is c f.1 room in
          (b', rw e e', room', (c, puts, logs))
