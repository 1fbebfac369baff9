-- ===== src/Core/Transaction.antt =====
-- `BEGIN`, a body, and `COMMIT` or `ROLLBACK`, as every service writes it.
use nomai.Base.{◌≡◌, refl, subst, Result, ok, err, Holds}
use nomai.Core.{Deps, CoreError}

module _ (d : Deps) {S : Type 0} {A : Type 0} where
  -- An error restores the tables.
  abbrev pub close : S → Result (CoreError d) (A × S) → Result (CoreError d) A × S
  close db (ok o) = (ok o.0, o.1)
  close db (err e) = (err e, db)

  unfoldable pub in_tx : (S → Result (CoreError d) (A × S)) → S → Result (CoreError d) A × S
  in_tx body db = close db (body db)

  pub close-error :
      (db : S) (r : Result (CoreError d) (A × S)) (e : CoreError d)
      → (close db r).0 ≡ err e
      → (close db r).1 ≡ db
  close-error db (ok o) e h = cc
  close-error db (err why) e h = refl

  -- What holds of the result and the tables of a body that succeeds.
  pub close-ok :
      (P : A → S → Type 0) (db : S) (r : Result (CoreError d) (A × S)) (a : A)
      → Holds (λ o. P o.0 o.1) r
      → (close db r).0 ≡ ok a
      → P a (close db r).1
  close-ok P db (ok o) a p h = let same : o.0 ≡ a = cc in subst (λ b. P b o.1) same p
  close-ok P db (err why) a p h = cc

  -- A transaction keeps what its body keeps when it succeeds.
  pub close_keeps :
      (P : S → Type 0) (db : S) (r : Result (CoreError d) (A × S))
      → P db
      → Holds (λ o. P o.1) r
      → P (close db r).1
  close_keeps P db (ok o) v h = h
  close_keeps P db (err why) v h = v
