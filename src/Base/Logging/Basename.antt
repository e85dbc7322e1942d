-- ===== src/Base/Logging/Basename.antt =====
-- The name of a file without its directory.
use dxian.Prelude.{
  ℕ, ◌≡◌, ◌≢◌, ◌⊎◌, inl, inr, refl, ap, subst, ◌∙◌, arith, none, some, List, [], ◌∷◌, ◌++◌, ◌==◌,
  All, Bool-cases, Option-cases,
}
use dxian.Base.Logging.Line.{after_slash, source_file}

-- No slash is left, and what is cut off ends with one, if anything is.
pub record IsBasename (filename base : List ℕ) : Type 0 where
  pub dir : List ℕ
  pub parts : filename ≡ dir ++ base
  pub ends : (dir ≡ []) ⊎ ((d : List ℕ) × (dir ≡ d ++ 47 ∷ []))
  pub no_slash : All (λ c. c ≢ 47) base

after_slash-none : (cs : List ℕ) → after_slash cs ≡ none → All (λ c. c ≢ 47) cs
unfolding after_slash
after_slash-none [] h = tt
after_slash-none (c ∷ cs) h = elim (Option-cases (after_slash cs)) [
  | inl e ↦ ((λ q. ground (arith, (rw e at h), q)), after_slash-none cs e)
  | inr (rest, e) ↦ absurd (ground (arith, (rw e at h)))
]

after_slash-IsBasename :
    (cs rest : List ℕ)
    → after_slash cs ≡ some rest
    → (d : List ℕ) × (cs ≡ (d ++ 47 ∷ []) ++ rest) × All (λ c. c ≢ 47) rest
unfolding after_slash
after_slash-IsBasename [] rest h = absurd (ground (arith, h))
after_slash-IsBasename (c ∷ cs) rest h = elim (Option-cases (after_slash cs)) [
  | inl e ↦ elim (Bool-cases (c == 47)) [
    | inl slash ↦
        let same : cs ≡ rest = ground (arith, (rw (e, slash) at h)) in
        ([], ground (arith, slash, same), subst (All (λ x. x ≢ 47)) same (after_slash-none cs e))
    | inr other ↦ absurd (ground (arith, (rw (e, other) at h)))
  ]
  | inr (found, e) ↦
      let same : found ≡ rest = ground (arith, (rw e at h)) in
      let (d, parts, no_slash) = after_slash-IsBasename cs rest (e ∙ ap some same) in
      (c ∷ d, ap (λ xs. c ∷ xs) parts, no_slash)
]

pub source_file-IsBasename : (filename : List ℕ) → IsBasename filename (source_file filename)
unfolding source_file
source_file-IsBasename filename = elim (Option-cases (after_slash filename)) [
  | inl e ↦
      rw (source_file, e)
        (record { dir = []; parts = refl; ends = inl refl; no_slash = after_slash-none filename e })
  | inr (rest, e) ↦
      let (d, parts, no_slash) = after_slash-IsBasename filename rest e in
      rw (source_file, e)
        (record { dir = d ++ 47 ∷ []; parts = parts; ends = inr (d, refl); no_slash = no_slash })
]
