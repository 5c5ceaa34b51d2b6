-- ===== src/Map/Client.antt =====
-- What a map is given by its client: storables and values (storable.go, value.go), the comparison of
-- keys, and the digests of keys (the interfaces Digester and DigesterBuilder of hash.go).
use atree.Prelude.{ℕ, ◌≡◌, ◌<◌, ◌↔◌, Bool, true, Option, none, some}
use atree.Bytes.{Bytes8}
use atree.Errors.{Error, Result, ok, err}
use atree.Action.{Action}

-- `Digest` returns a digest and perhaps an error; some callers look at the digest alone.
pub record Digester : Type 0 where
  pub levels : ℕ
  pub digest : ℕ → ℕ × Option Error

unfoldable pub digest_at : Digester → ℕ → Result ℕ
digest_at d level = elim ((d.digest level).1) [ none ↦ ok (d.digest level).0 | some e ↦ err e ]

-- `E` is the type of storables and `V` that of values. `digester` is DigesterBuilder.Digest with
-- the HashInputProvider given.
pub record Client (E S V : Type 0) : Type 0 where
  pub byte_size : E → ℕ
  pub storable : Bytes8 → ℕ → V → Action S E
  pub stored_value : E → Action S V
  pub comparator : V → E → Action S Bool
  pub digester : V → Result Digester

-- A client whose storables stand for values: a storable of a value gives the value back, the
-- comparison of keys decides their equality, and digests are given at every level below their
-- number.
pub record IsLawfulClient {E S V : Type 0} (client : Client E S V) : Type 0 where
  pub value_of : E → V
  pub storable_of : Bytes8 → ℕ → V → E
  pub equal : V → V → Bool
  pub equal_iff : (v w : V) → (equal v w ≡ true) ↔ (v ≡ w)
  pub storable-ok :
      (address : Bytes8) (limit : ℕ) (v : V) (s : S)
      → (client.storable address limit v s).0 ≡ ok (storable_of address limit v)
  pub value_of-storable_of :
      (address : Bytes8) (limit : ℕ) (v : V) → value_of (storable_of address limit v) ≡ v
  pub stored_value-ok : (e : E) (s : S) → (client.stored_value e s).0 ≡ ok (value_of e)
  pub comparator-ok :
      (v : V) (e : E) (s : S) → (client.comparator v e s).0 ≡ ok (equal v (value_of e))
  pub levels : ℕ
  pub digester_of : V → Digester
  pub digester-ok : (v : V) → client.digester v ≡ ok (digester_of v)
  pub levels-digester_of : (v : V) → (digester_of v).levels ≡ levels
  pub digest-ok : (v : V) (level : ℕ) → level < levels → ((digester_of v).digest level).1 ≡ none
