-- ===== src/Prelude/Effects.antt =====
-- Operations that change a state and may raise. What was changed before a raise stays changed in
-- the session until somebody rolls it back, so the state comes back beside the error too.
use mathlib.Core.Bool.{Bool, true, false}
use kb_partners.Errors.{Problem}

pub data Result {ℓ} (A : Type ℓ) : Type ℓ where
  ok : A → Result A
  err : Problem → Result A

abbrev pub Effect {ℓ} : Type ℓ → Type ℓ → Type ℓ
Effect S A = S → Result A × S

module _ {ℓ} {S A : Type ℓ} where
  unfoldable pub pure : A → Effect S A
  pure a s = (ok a, s)

  unfoldable pub raise : Problem → Effect S A
  raise p s = (err p, s)

  -- A result that was computed beside the state.
  unfoldable pub of_result : Result A → Effect S A
  of_result r s = (r, s)

module _ {ℓ} {S : Type ℓ} where
  unfoldable pub modify : (S → S) → Effect S Unit
  modify f s = (ok tt, f s)

  -- `if not allowed: raise p`
  unfoldable pub require : Bool → Problem → Effect S Unit
  require true p s = (ok tt, s)
  require false p s = (err p, s)

  unfoldable pub get : Effect S S
  get s = (ok s, s)

module _ {ℓ} {S A B : Type ℓ} where
  abbrev pub continue : Result A → (A → Effect S B) → Effect S B
  continue (ok a) f s = f a s
  continue (err p) f s = (err p, s)

  infixl 5 ◌>>=◌ ◌>>◌
  -- Opening this opens `pure`, `raise`, `modify`, `require` and `get` too.
  unfoldable pub ◌>>=◌ : Effect S A → (A → Effect S B) → Effect S B
  unfolding pure raise modify require get
  ◌>>=◌ m f s = let (r, t) = m s in continue r f t

  abbrev pub ◌>>◌ : Effect S A → Effect S B → Effect S B
  m >> n = m >>= λ _. n
