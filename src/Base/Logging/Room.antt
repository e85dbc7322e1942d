-- ===== src/Base/Logging/Room.antt =====
-- server/src/muduo/base/Logging.cpp: the room that a log line takes in its buffer, and the texts of its values.
use dxian.Prelude.{
  ℕ, ◌+◌, ◌^◌, ◌≤◌, ◌<◌, ◌≡◌, inl, inr, refl, ap, sym, ◌∙◌, arith, none, some, List, [], ◌∷◌, ◌++◌,
  append_assoc, append-nil, length, length-append, All,
}
use dxian.Base.LogStream.{FixedBuffer, Item, bool, integer, pointer, double, char, c_string, text}
use dxian.Base.LogStream.Buffer.{Shows, Full, Puts, Logs}

-- The room that a value takes at most.
abbrev pub width : (ℕ → List ℕ) → Item → ℕ
width snprintf (bool b) = 1
width snprintf (integer z) = 21
width snprintf (pointer p) = 18
width snprintf (double v) = length (snprintf v)
width snprintf (char c) = 1
width snprintf (c_string none) = 6
width snprintf (c_string (some s)) = length s
width snprintf (text s) = length s

abbrev pub total : (ℕ → List ℕ) → List Item → ℕ
total snprintf [] = 0
total snprintf (i ∷ is) = width snprintf i + total snprintf is

-- The texts of all values, one after the other.
abbrev pub Whole : (ℕ → List ℕ) → List Item → List ℕ → Type 0
Whole snprintf [] t = t ≡ []
Whole snprintf (i ∷ is) t =
    (cs : List ℕ) × (rest : List ℕ) × (t ≡ cs ++ rest)
    × Shows snprintf i cs
    × Whole snprintf is rest

total-append :
    (snprintf : ℕ → List ℕ) (xs ys : List Item)
    → total snprintf (xs ++ ys) ≡ total snprintf xs + total snprintf ys
total-append snprintf [] ys = omega arith
total-append snprintf (x ∷ xs) ys = omega (arith, total-append snprintf xs ys)

pub All-append {ℓ κ} :
    {A : Type ℓ} (P : A → Type κ) (xs ys : List A) → All P xs → All P ys → All P (xs ++ ys)
All-append P [] ys h k = k
All-append P (x ∷ xs) ys h k = (h.0, All-append P xs ys h.1 k)

pub Whole-split :
    (snprintf : ℕ → List ℕ) (xs ys : List Item) (t : List ℕ)
    → Whole snprintf (xs ++ ys) t
    → (a : List ℕ) × (b : List ℕ) × (t ≡ a ++ b) × Whole snprintf xs a × Whole snprintf ys b
Whole-split snprintf [] ys t h = ([], t, refl, refl, h)
Whole-split snprintf (x ∷ xs) ys t (cs, rest, e, shows, h) =
    let (a, b, e', wa, wb) = Whole-split snprintf xs ys rest h in
    (
      cs ++ a,
      b,
      e ∙ (ap (λ r. cs ++ r) e' ∙ sym (append_assoc cs a b)),
      (cs, a, refl, shows, wa),
      wb,
    )

shown_width :
    (snprintf : ℕ → List ℕ) (i : Item) (cs : List ℕ)
    → Shows snprintf i cs
    → length cs ≤ width snprintf i
shown_width snprintf (bool b) cs h = rw h (omega arith)
shown_width snprintf (integer z) cs h = h.1
shown_width snprintf (pointer p) cs (ds, e, reads, short) = rw e (omega (arith, short))
shown_width snprintf (double v) cs h = rw h (omega arith)
shown_width snprintf (char c) cs h = rw h (omega arith)
shown_width snprintf (c_string none) cs h = rw h (omega arith)
shown_width snprintf (c_string (some s)) cs h = rw h (omega arith)
shown_width snprintf (text s) cs h = rw h (omega arith)

module _ (snprintf : ℕ → List ℕ) (size : ℕ) (small : size < 2 ^ 64) where
  room_left :
      (i : Item) (cs : List ℕ) (b : FixedBuffer)
      → length b.written + length cs + 48 ≤ size
      → Full snprintf size i cs b
      → 0 < 0
  room_left (bool v) cs b h k = omega (arith, h, k)
  room_left (integer z) cs b h k = omega (arith, h, k)
  room_left (pointer p) cs b h k = omega (arith, h, k)
  room_left (double v) cs b h k = omega (arith, h, k)
  room_left (char c) cs b h k = omega (arith, h, k)
  room_left (c_string s) cs b h k = omega (arith, h, k)
  room_left (text s) cs b h k = omega (arith, h, k)

  one_added :
      (i : Item) (b b' : FixedBuffer)
      → length b.written + width snprintf i + 48 ≤ size
      → Puts snprintf size i b b'
      → (cs : List ℕ) × Shows snprintf i cs × (b'.written ≡ b.written ++ cs)
  one_added i b b' h (cs, shows, inl e) = (cs, shows, e)
  one_added i b b' h (cs, shows, inr (e, full)) =
      absurd
        (omega (arith, room_left i cs b (omega (arith, h, shown_width snprintf i cs shows)) full))

  pub all_added :
      (general : (v : ℕ) → length (snprintf v) ≤ 19) (is : List Item) (b b' : FixedBuffer)
      → length b.written + total snprintf is + 48 ≤ size
      → Logs snprintf size small general is b b'
      → (t : List ℕ) × Whole snprintf is t × (b'.written ≡ b.written ++ t)
  all_added general [] b b' h e =
      ([], refl, ap (λ x. x.written) (sym e) ∙ sym (append-nil b.written))
  all_added general (i ∷ is) b b' h (c, puts, logs) =
      let (cs, shows, e) = one_added i b c (omega (arith, h)) puts in
      let grown : length c.written ≡ length b.written + length cs =
        ap length e ∙ length-append b.written cs in
      let (t, whole, e') =
        all_added general is c b' (omega (arith, h, grown, shown_width snprintf i cs shows)) logs in
      (
        cs ++ t,
        (cs, t, refl, shows, whole),
        e' ∙ (ap (λ x. x ++ t) e ∙ append_assoc b.written cs t),
      )
