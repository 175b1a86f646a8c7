-- ===== src/Controller/Answers.antt =====
-- Requests of the controller whose answers are read: they fail with an error, or panic.
use gomaasapi.Prelude.{ok, err, Action, lift}
use gomaasapi.Http.{Platform, World}
use gomaasapi.Reading.{Fault, returned, rewrap, Read}
use gomaasapi.Controller.{Api}

module _ (P : Platform) where
  open P use {Err}

  abbrev pub Reading {ℓ} : Type ℓ → Type ℓ
  Reading A = Action (World P) (Fault Err) A

  -- A request, its error rewritten.
  abbrev pub failing {ℓ} : {A : Type ℓ} → (Err → Err) → Api P A → Reading A
  failing f m w = elim ((m w).0) [
    | ok a ↦ (ok a, (m w).1)
    | err e ↦ (err (returned (f e)), (m w).1)
  ]

  -- The error that an action returns is traced.
  abbrev pub retraced {ℓ} : {A : Type ℓ} → Reading A → Reading A
  retraced m w = (rewrap P.errors.trace (m w).0, (m w).1)

  -- What is read of an answer; an error is traced.
  abbrev pub reading {ℓ} : {A : Type ℓ} → Read P A → Reading A
  reading r = lift (rewrap P.errors.trace r)
