-- ===== src/Map/Lookup/Collision.antt =====
-- The groups that singleElement.Set makes for a key that collides (map_element.go) hold the existing
-- key alone.
use atree.Prelude.{
  ℕ, zero, suc, ◌<◌, ◌≡◌, refl, ap, sym, false, ◌==◌, arith, Bool-cases, inl, inr, ==_iff,
}
use atree.Errors.{ok}
use atree.Map.Slab.{SingleElement, single_element, Elements, single_elements, of_hkey}
use atree.Map.Client.{Client, IsLawfulClient, digest_at}
use atree.Map.Hkey.{new_hkey_elements_with_element}
use atree.Map.Single.{new_single_elements_with_element}
use atree.Map.Element.{element_size}
use atree.Map.Lookup.{IsOrdered, key_digest, look_single, look_singles, look_element, scan, lookup}

module _ {E S V : Type 0} (client : Client E S V) (law : IsLawfulClient client) where
  pub lookup-new_singles :
      (n level : ℕ) (q : V) (e : SingleElement E)
      → lookup client law n level q (single_elements (new_single_elements_with_element level e))
        ≡ look_single client law q e
  unfolding lookup look_singles look_single new_single_elements_with_element
  lookup-new_singles n level q e = refl

  abbrev pub new_hkeys : ℕ → SingleElement E → Elements E
  new_hkeys level e = of_hkey (
      new_hkey_elements_with_element element_size level
        (key_digest client law (law.value_of e.key) level) (single_element e))

  pub new_hkeys-IsOrdered :
      (n level : ℕ) (e : SingleElement E) → 0 < n → 0 < level → IsOrdered n (new_hkeys level e)
  unfolding new_hkey_elements_with_element
  new_hkeys-IsOrdered zero level e h k = absurd (omega arith)
  new_hkeys-IsOrdered (suc n) level e h k = ((tt, tt), refl, k, (tt, tt))

  pub lookup-new_hkeys :
      (n level : ℕ) (q : V) (e : SingleElement E)
      → 0 < n
      → lookup client law n level q (new_hkeys level e) ≡ look_single client law q e
  unfolding lookup look_single look_element scan new_hkey_elements_with_element
  lookup-new_hkeys zero level q e h = absurd (omega arith)
  lookup-new_hkeys (suc n) level q e h =
      let existing = key_digest client law (law.value_of e.key) level in
      elim (Bool-cases (existing == key_digest client law q level)) [
        | inl same ↦ rw same refl
        | inr other ↦
            let unequal : law.equal q (law.value_of e.key) ≡ false =
              elim (Bool-cases (law.equal q (law.value_of e.key))) [
                | inr u ↦ u
                | inl equal ↦
                    let k : q ≡ law.value_of e.key = (law.equal_iff _ _).0 equal in
                    absurd (
                      let b =
                        (==_iff existing (key_digest client law q level)).1
                          (ap (λ v. key_digest client law v level) (sym k)) in
                      cc)
              ] in
            rw (other, unequal) refl
      ]

  pub digest_at-key_digest :
      (v : V) (level : ℕ)
      → level < law.levels
      → digest_at (law.digester_of v) level ≡ ok (key_digest client law v level)
  unfolding digest_at key_digest
  digest_at-key_digest v level h = rw (digest_at, law.digest-ok v level h) refl
