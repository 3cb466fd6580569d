-- ===== src/Prelude/While.antt =====
-- The loop `while (i < s.size() && p(s[i])) ++i`, on what is left of `s`.
use Prim.Native.Nat.{◌-◌}
use mathlib.Core.Path.{◌≡◌, refl, ap, ◌∙◌}
use mathlib.Core.List.{List, [], ◌∷◌, ◌++◌}
use mathlib.Core.Bool.{Bool, true, false}
use mathlib.Core.Logic.{inl, inr}
use native.Mathlib.Omega.{arith}
use pquery.Prelude.Tests.{if◌then◌else◌, Bool-cases}
use pquery.Prelude.Lists.{length, take, All, length-append, take-length-append}

module _ {A : Type 0} where
  unfoldable pub drop_while : (A → Bool) → List A → List A
  drop_while p [] = []
  drop_while p (c ∷ s) = if p c then drop_while p s else c ∷ s

  -- The loop ends at once.
  abbrev pub Stops : (A → Bool) → List A → Type 0
  Stops p [] = Unit
  Stops p (c ∷ s) = p c ≡ false

  -- What stands between the position of `s` and that of `t` behind it.
  abbrev pub between : List A → List A → List A
  between s t = take (length s - length t) s

  pub between-append : (w t : List A) → between (w ++ t) t ≡ w
  between-append w t =
      let n : length (w ++ t) - length t ≡ length w = omega (arith, length-append w t) in
      ap (λ k. take k (w ++ t)) n ∙ take-length-append w t

module _ {A : Type 0} (p : A → Bool) where
  pub drop_while-append :
      (w rest : List A) → All (λ c. p c ≡ true) w → Stops p rest → drop_while p (w ++ rest) ≡ rest
  unfolding drop_while
  drop_while-append [] [] h k = refl
  drop_while-append [] (c ∷ rest) h k = rw k
  drop_while-append (c ∷ w) rest h k = rw (h.0) (drop_while-append w rest h.1 k)

  -- `t` is what the loop leaves of `s`.
  pub record Passes (s t : List A) : Type 0 where
    pub passed : List A
    pub splits : s ≡ passed ++ t
    pub holds : All (λ c. p c ≡ true) passed
    pub stops : Stops p t

  pub drop_while-Passes : (s : List A) → Passes s (drop_while p s)
  unfolding drop_while
  drop_while-Passes [] = record { passed = []; splits = refl; holds = tt; stops = tt }
  drop_while-Passes (c ∷ s) = elim (Bool-cases (p c)) [
    | inl h ↦
        let r = drop_while-Passes s in
        rw (h) (record {
          passed = c ∷ r.passed;
          splits = ap (◌∷◌ c) r.splits;
          holds = (h, r.holds);
          stops = r.stops;
        })
    | inr h ↦ rw (h) (record { passed = []; splits = refl; holds = tt; stops = h })
  ]
