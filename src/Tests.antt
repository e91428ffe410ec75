-- ===== src/Tests.antt =====
-- The repository's own unit tests, on the model: each is a test with the test's name, and each file
-- ends with the proof that its tests pass.
pub mod Authz
pub mod Proxy
pub mod Backends
pub mod Jwt
pub mod Classify
pub mod Documents
pub mod Records
pub mod Certificates
pub mod Gateway
pub mod Integration
pub mod Handshakes
use indexer_gateway_auth.Prelude.{
  String, Bool, true, false, ◌&&◌, Option, none, some, List, [], ◌∷◌, ◌==◌,
}
use indexer_gateway_auth.Prelude.{Result, ok, err}

abbrev pub is_ok : {E A : Type 0} → Result E A → Bool
is_ok (ok a) = true
is_ok (err e) = false

-- `assert_eq!` on lists of texts.
abbrev pub same_texts : List String → List String → Bool
same_texts [] [] = true
same_texts (a ∷ ss) (b ∷ ts) = a == b && same_texts ss ts
same_texts _ _ = false

-- A result is there and passes.
abbrev pub ok_and : {E A : Type 0} → Result E A → (A → Bool) → Bool
ok_and (ok a) f = f a
ok_and (err e) f = false

-- `unwrap_err` and a test of the error.
abbrev pub err_and : {E A : Type 0} → Result E A → (E → Bool) → Bool
err_and (ok a) f = false
err_and (err e) f = f e

abbrev pub some_and : {A : Type 0} → Option A → (A → Bool) → Bool
some_and none f = false
some_and (some a) f = f a
