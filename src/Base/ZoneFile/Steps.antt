-- ===== src/Base/ZoneFile/Steps.antt =====
-- Readers on the bytes that they are meant for.
use dxian.Prelude.{
  ℕ, ◌+◌, ◌≡◌, refl, ap, ◌∙◌, Bool, false, List, [], ◌∷◌, ◌++◌, append_assoc, arith, length,
  length-append,
}
use dxian.Prelude.Int.{ℤ, pos}
use dxian.Base.ZoneFile.{
  File, got, Reader, Error, not_enough_data, bad_int32_data, bad_int64_data, bad_uint8_data, ◌>>=◌,
  ◌>>◌, give, read_all, read_bytes, read_int32, read_int64, read_uint8, read_to_end, skip, reserve,
  times, throw_if, reject_if,
}
use dxian.Base.ZoneFile.Bytes.{
  drop, word, signed, int_bytes, Fits, drop-drop, drop-append, take-append, signed-int32,
  signed-int64, length-int_bytes,
}

abbrev pub advance : ℕ → File → File
advance n f = record f { position = f.position + n }

-- What is still to be read.
abbrev pub ahead : File → List ℕ
ahead f = drop f.position f.contents

-- In front of these bytes, the reader takes them all and gives this value.
abbrev pub Reads {ℓ} : {A : Type ℓ} → Reader A → List ℕ → A → Type ℓ
Reads r bs a =
    (f : File) (rest : List ℕ) → ahead f ≡ bs ++ rest → r f ≡ got (a, advance (length bs) f)

-- At the end of a file, it gives this value.
abbrev pub Ends {ℓ} : {A : Type ℓ} → Reader A → List ℕ → A → Type ℓ
Ends r bs a = (f : File) → ahead f ≡ bs → (f' : File) × (r f ≡ got (a, f'))

pub ahead-advance :
    (f : File) (bs rest : List ℕ) → ahead f ≡ bs ++ rest → ahead (advance (length bs) f) ≡ rest
ahead-advance f bs rest e =
    drop-drop f.position (length bs) f.contents ∙ (ap (drop (length bs)) e ∙ drop-append bs rest)

module _ {ℓ κ} {A : Type ℓ} {B : Type κ} (r : Reader A) (bs : List ℕ) (a : A)
    (reads : Reads r bs a) where
  -- In a `do` block.
  pub bind-Reads :
      (k : A → Reader B) (cs : List ℕ) (b : B) → Reads (k a) cs b → Reads (r >>= k) (bs ++ cs) b
  bind-Reads k cs b go f rest e =
      let at : ahead f ≡ bs ++ (cs ++ rest) = e ∙ append_assoc bs cs rest in
      rw
        (
          reads f (cs ++ rest) at,
          go (advance (length bs) f) rest (ahead-advance f bs (cs ++ rest) at),
          length-append bs cs,
        )
        (ap (λ n. got (b, record f { position = n })) (omega arith))

  pub bind-Ends :
      (k : A → Reader B) (cs : List ℕ) (b : B) → Ends (k a) cs b → Ends (r >>= k) (bs ++ cs) b
  bind-Ends k cs b go f e =
      let (f', done) = go (advance (length bs) f) (ahead-advance f bs cs e) in
      (f', rw (reads f cs e) done)

  pub next-Reads : (k : Reader B) (cs : List ℕ) (b : B) → Reads k cs b → Reads (r >> k) (bs ++ cs) b
  next-Reads k = bind-Reads (λ x. k)

  pub next-Ends : (k : Reader B) (cs : List ℕ) (b : B) → Ends k cs b → Ends (r >> k) (bs ++ cs) b
  next-Ends k = bind-Ends (λ x. k)

pub give-Reads {ℓ} : {A : Type ℓ} (a : A) → Reads (give a) [] a
give-Reads a f rest e = ap (λ n. got (a, record f { position = n })) (omega arith)

-- The last step of a `do` block.
pub finish-Reads {ℓ κ} :
    {A : Type ℓ} {B : Type κ} (r : Reader A) (bs : List ℕ) (a : A)
    → Reads r bs a
    → (k : A → B) (b : B) → k a ≡ b
    → Reads (r >>= λ x. give (k x)) bs b
finish-Reads r bs a reads k b same f rest e = rw (reads f rest e, same) refl

pub read_all-Reads : (e : Error) (n : ℕ) (bs : List ℕ) → length bs ≡ n → Reads (read_all e n) bs bs
unfolding read_all
read_all-Reads e n bs h f rest at = rw (← h) (rw (at, take-append bs rest) (ground arith))

pub read_bytes-Reads : (bs : List ℕ) → Reads (read_bytes (pos (length bs))) bs bs
unfolding read_bytes
read_bytes-Reads bs = read_all-Reads not_enough_data (length bs) bs refl

pub read_int32-Reads : (z : ℤ) → Fits 31 z → Reads read_int32 (int_bytes 4 z) z
unfolding read_int32
read_int32-Reads z h =
    finish-Reads (read_all bad_int32_data 4) (int_bytes 4 z) (int_bytes 4 z)
      (read_all-Reads bad_int32_data 4 (int_bytes 4 z) (length-int_bytes 4 z))
      (λ bs. signed 31 (word 0 bs)) z (signed-int32 z h)

pub read_int64-Reads : (z : ℤ) → Fits 63 z → Reads read_int64 (int_bytes 8 z) z
unfolding read_int64
read_int64-Reads z h =
    finish-Reads (read_all bad_int64_data 8) (int_bytes 8 z) (int_bytes 8 z)
      (read_all-Reads bad_int64_data 8 (int_bytes 8 z) (length-int_bytes 8 z))
      (λ bs. signed 63 (word 0 bs)) z (signed-int64 z h)

pub read_uint8-Reads : (b : ℕ) → Reads read_uint8 (b ∷ []) b
unfolding read_uint8 word
read_uint8-Reads b =
    finish-Reads (read_all bad_uint8_data 1) (b ∷ []) (b ∷ [])
      (read_all-Reads bad_uint8_data 1 (b ∷ []) refl) (λ bs. word 0 bs) b (omega arith)

pub skip-Reads : (bs : List ℕ) → Reads (skip (pos (length bs))) bs tt
unfolding skip
skip-Reads bs f rest e = refl

pub reserve-Reads : (n : ℕ) → Reads (reserve (pos n)) [] tt
unfolding reserve
reserve-Reads n = give-Reads tt

pub reject_if-Reads : (b : Bool) → b ≡ false → Reads (reject_if b) [] tt
reject_if-Reads b h = rw h (give-Reads tt)

pub throw_if-Reads : (e : Error) (b : Bool) → b ≡ false → Reads (throw_if e b) [] tt
throw_if-Reads e b h = rw h (give-Reads tt)

pub read_to_end-Ends : (bs : List ℕ) → Ends read_to_end bs bs
unfolding read_to_end
read_to_end-Ends bs f e = (advance (length (ahead f)) f, rw e refl)

abbrev pub concat : List (List ℕ) → List ℕ
concat [] = []
concat (bs ∷ rest) = bs ++ concat rest

-- The bytes of several values.
abbrev pub bytes_of {ℓ} : {A : Type ℓ} → (A → List ℕ) → List A → List ℕ
bytes_of enc [] = []
bytes_of enc (a ∷ xs) = enc a ++ bytes_of enc xs

abbrev pub Each {ℓ} : {A : Type ℓ} → (A → Type 0) → List A → Type 0
Each P [] = Unit {0}
Each P (a ∷ xs) = P a × Each P xs

pub times-Reads {ℓ} :
    {A : Type ℓ} (r : Reader A) (enc : A → List ℕ) (P : A → Type 0)
    → ((a : A) → P a → Reads r (enc a) a)
    → (xs : List A) → Each P xs
    → Reads (times (length xs) r) (bytes_of enc xs) xs
unfolding times
times-Reads r enc P one [] h = give-Reads []
times-Reads r enc P one (a ∷ xs) h =
    bind-Reads r (enc a) a (one a h.0) (λ x. times (length xs) r >>= λ rest. give (x ∷ rest))
      (bytes_of enc xs) (a ∷ xs)
      (finish-Reads (times (length xs) r) (bytes_of enc xs) xs (times-Reads r enc P one xs h.1)
        (λ rest. a ∷ rest) (a ∷ xs) refl)
